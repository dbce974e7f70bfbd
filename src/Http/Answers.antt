-- ===== src/Http/Answers.antt =====
-- What a call of `request` of infra/http/client.py comes to.
