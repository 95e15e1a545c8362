-- ===== src/Request/Tests.antt =====
-- The optional switch of a request.
