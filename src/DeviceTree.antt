-- ===== src/DeviceTree.antt =====
-- crates/devicetree: the flattened device tree, read in place from the bytes of its blob. Bytes has the reads that all
-- parts share (lib.rs), Tokens the tokens of the structure block (parse.rs), Blob the header and the blocks of a
-- blob (lib.rs), Find the search for a node by its path (lib.rs), and Node what a node holds (node.rs). Format
-- writes the format that the code reads, from its specification.
pub mod Bytes
pub mod Reading
pub mod Tokens
pub mod Blob
pub mod Reservations
pub mod Loop
pub mod Level
pub mod Find
pub mod FindAll
pub mod Property
pub mod Node
pub mod Regions
pub mod Chosen
pub mod Ends
pub mod Sample
mod Tests
pub mod Format
