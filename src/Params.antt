-- ===== src/Params.antt =====
-- Component parameters: the dynamic values, the conversions between them and C++ types, the
-- parameter set of a component, and the code that resolves it.
pub mod Value
pub mod Convert
pub mod Struct
pub mod Store
pub mod Python
