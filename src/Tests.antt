-- ===== src/Tests.antt =====
-- Runs of the model at concrete inputs, and each theorem at an input that meets its hypotheses.
mod SchedulerCases
mod RateLimitCases
mod KvCacheCases
mod PromptCases
mod RuntimeCases
mod ApiCases
mod HubCases
