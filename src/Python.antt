-- ===== src/Python.antt =====
-- src/python_helpers.cpp: what loading and closing a module does to the interpreter's sys.path and
-- sys.modules. The import itself is Python's, a parameter.
pub mod Restored
use rpp_cpp.Base.{
  String, ◌<>◌, Bool, true, false, not, ◌≡◌, ◌||◌, List, [], ◌∷◌, ◌==◌, if◌then◌else◌,
}
use rpp_cpp.Base.Result.{Result, ok, err, runtime_error}
use rpp_cpp.Files.{Filesystem}

pub record Interpreter : Type 0 where
  pub path : List String
  pub modules : List String
  pub dont_write_bytecode : Bool

-- importlib.import_module: the module or an exception, and the interpreter afterwards.
pub record Importer (Module : Type 0) : Type 0 where
  pub import_module : String → Interpreter → Result Module × Interpreter

unfoldable pub member : String → List String → Bool
member s [] = false
member s (x ∷ xs) = x == s || member s xs

-- The first entry of that spelling is taken out.
unfoldable pub remove_first : String → List String → List String
remove_first s [] = []
remove_first s (x ∷ xs) = if x == s then xs else x ∷ remove_first s xs

abbrev pub add_path : String → Interpreter → Interpreter
add_path directory py =
    if member directory py.path then py else record py { path = directory ∷ py.path }

module _ {Module : Type 0} (fs : Filesystem) (importer : Importer Module) where
  unfoldable pub load_python_module : String → Interpreter → Result Module × Interpreter
  unfolding member
  load_python_module module_path py =
      if fs.exists module_path
      then importer.import_module (fs.stem module_path)
          (add_path (fs.parent_path module_path) (record py { dont_write_bytecode = true }))
      else (err (runtime_error ("Python module not found: " <> module_path)), py)

unfoldable pub close_python_module : Filesystem → String → Interpreter → Interpreter
unfolding remove_first
close_python_module fs module_path py = record py {
  path = remove_first (fs.parent_path module_path) py.path;
  modules = remove_first (fs.stem module_path) py.modules;
}
