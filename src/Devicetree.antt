-- ===== src/Devicetree.antt =====
-- kernel/devicetree: the scanner, the tree and the parser of flattened device trees.
pub mod Scanner
pub mod Tree
pub mod Fdt
