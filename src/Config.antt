-- ===== src/Config.antt =====
-- config.go: the environment and the .env file, the flags, ParseConfig and redactURL. What the code
-- takes from strconv, time, strings and os is an argument.
pub mod Env
pub mod Redact
pub mod Log
pub mod Settings
pub mod Parse
pub mod Valid
pub mod Precedence
pub mod Tests
