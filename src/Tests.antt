-- ===== src/Tests.antt =====
-- Runs of the model on concrete input, and the theorems at inputs that meet their hypotheses.
mod ParserTests
mod ValueTests
mod SocketTests
mod SyncTests
mod AsyncTests
mod EventTests
mod ExampleTests
mod ProgramTests
mod RoundTests
mod StageTests
