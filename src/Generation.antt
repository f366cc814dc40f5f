-- ===== src/Generation.antt =====
-- From a page to a sentence: src/personal_voice_msg/discovery/inspiration.py and
-- src/personal_voice_msg/generation/sentence.py.
pub mod Cards
pub mod Drafts
pub mod Gemini
pub mod Sentence
pub mod Sentences
pub mod Stored
