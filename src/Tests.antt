-- ===== src/Tests.antt =====
-- Runs of the model on concrete inputs, and the theorems at inputs that meet their hypotheses.
mod Fixture
mod Delivering
mod Finishing
mod Sending
mod Tables
mod Reading
mod Texts
mod Queue
mod Web
mod Curated
mod Generating
mod Enrolling
