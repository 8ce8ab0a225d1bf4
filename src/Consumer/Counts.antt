-- ===== src/Consumer/Counts.antt =====
-- What a dispatch reports (services/event-consumer/src/event_consumer/service.py, process_once).
