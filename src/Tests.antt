-- ===== src/Tests.antt =====
-- Runs of the model on concrete inputs, and the theorems at inputs that meet their hypotheses.
mod Data
mod ReAct
mod Middleware
mod Security
mod Tool
mod Edit
mod Provider
mod Env
mod Files
mod Dispatcher
mod Executor
mod Response
mod Agent
mod Shell
mod EditFile
mod Builder
mod Runtime
mod WinSandbox
