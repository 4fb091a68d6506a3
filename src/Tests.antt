-- ===== src/Tests.antt =====
-- Runs of the model on concrete inputs, and the theorems at inputs that meet their hypotheses.
mod Rules
mod Buffer
mod Channel
mod Pool
mod Parser
mod Session
mod Config
mod Worker
mod Socket
mod Server
mod Signal
