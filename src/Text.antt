-- ===== src/Text.antt =====
-- The character loops: to_lower_copy of include/rpp_cpp/data_model.hpp, to_snake_case of
-- include/rpp_cpp/data_manager.hpp and the search for "::" in src/rpp_paths.cpp. Upper case is that
-- of the "C" locale.
pub mod Lower
pub mod Snake
pub mod Separator
