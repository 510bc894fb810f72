-- ===== src/Error/Sqlstate.antt =====
-- error.h, namespace `sqlstate`: codes are SQLSTATEs read in base 36, and a condition may be a class.
pub mod Code
pub mod Name
pub mod Message
pub mod Class
use Prim.Native.String.{String}
