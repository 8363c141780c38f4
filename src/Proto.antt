-- ===== src/Proto.antt =====
-- The messages of shared/proto/resqterra.proto, with the numbers of its enumerations, and the
-- builders and constants of shared/src/lib.rs. A `float` or a `double` is its IEEE bit pattern and
-- an enumeration field is its `int32` wire value, as a number below 2 ^ 32.
mod Enums
mod Messages
mod Builders
mod Codes
mod UnitTests
pub use Enums.*
pub use Messages.*
pub use Builders.*
pub use Codes.*
