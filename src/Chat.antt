-- ===== src/Chat.antt =====
-- Conversations about a repository: app/models/chat.py, app/repositories/chat.py and
-- app/services/chat_service.py.
pub mod Tables
pub mod Queries
pub mod Service
pub mod Streaming
pub mod Generator
pub mod Privacy
pub mod Answers
pub mod Tests
pub mod Responses
