-- ===== src/Od.antt =====
-- The object dictionary (canopen/objectdictionary/__init__.py, datatypes.py).
pub mod DataType
pub mod Types
pub mod Structs
pub mod Variable
pub mod Dictionary
pub mod Eds
