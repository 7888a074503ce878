-- ===== src/Lib.antt =====
-- A model of rpp_cpp, the C++ library of a component framework for robot programs, with the theorems
-- that make its parts correct. Components are plugins with Python parameters; a builder turns the
-- descriptions on disk into trees of contexts, and components in other languages run in server
-- processes that the library starts and calls.
--
-- The parts, and where they are modelled:
--   Params      include/rpp_cpp/parameter_description.hpp (ParameterValue, ParameterConverter),
--               include/rpp_cpp/rpp_param_struct_headers.hpp (the struct macros),
--               include/rpp_cpp/parameters.hpp and src/parameter_handler.cpp (resolution, and
--               reading parameters from Python)
--   Text        the lower and snake case of names, and the separator "::"
--   Paths       src/rpp_paths.cpp; the global RPP_HOME is an argument
--   Python      src/python_helpers.cpp: sys.path and sys.modules
--   Json, Files the JSON library and the file system as interfaces
--   Data        src/data_model.cpp (PluginInfo, ComponentRecord, ScriptDescription) and
--               include/rpp_cpp/data_manager.hpp (RppDataManager)
--   Process     src/child_process.cpp; Process/Quoting is the Windows command line
--   Executor    include/rpp_cpp/component_call_executor.hpp
--   Loader      include/rpp_cpp/plugin_loader.hpp and src/plugin_loader.cpp
--   Connection  include/rpp_cpp/adapter_bases.hpp: the loop that connects to a server
--   External    include/rpp_cpp/external_component_process.hpp: the registry and create;
--               External/Runtime is the constructor and the destructor
--   Server      src/component_server.cpp: the command line of main; Server/Hosting is the rest
--   ListDefinitions  include/rpp_cpp/list_definitions.hpp
--   Host        include/rpp_cpp/rpp_server_host.hpp and plugin_runtime.hpp: what reaches a
--               running host is a list of events; Host/Client is its client
--   Context     include/rpp_cpp/context.hpp
--   Builder     include/rpp_cpp/context_builder.hpp: nodes here, processes and contexts in
--               Builder/Construction, scripts in Builder/Scripts, and the creation of
--               server processes in Builder/Processes
--   Network     include/rpp_cpp/network_utils.hpp: the search for a free port
--   Logger      include/rpp_cpp/logger.hpp and src/logger.cpp, writing to standard output
--   Clock       include/rpp_cpp/clock.hpp and src/clock.cpp
--   Tests       concrete documents, disks and processes at which the theorems apply
--
-- How they interact: the builder resolves component folders through the data manager, which reads
-- the data model's records through the JSON interface; it resolves parameters against the values
-- that Python gives, and groups the components that are not C++ by language. For each group, create
-- starts one server process with a command line that the server's main reads. A context initializes
-- its tree and hands out instances. That create gives one instance for each component, which the
-- builder's theorems ask for, is shown in Builder/Processes/Live, which puts the loader, the process
-- and the builder together.
--
-- How the code is written down: a function of the source keeps its name. An exception is a value,
-- `err` of Base/Result. A std::map is a list of entries in the order of its keys (Base/Dict); a
-- signed integer of a width is wrapped by Base/Int; a double is its bit pattern. What the operating
-- system, the JSON library, the Python binding and the dynamic loader answer is a parameter, with
-- the documented behaviour that a theorem needs as a hypothesis. The rounds of ChildProcess::wait
-- are a list of answers; the threads that share an executor take steps in any order.
--
-- Fuel: the recursion on JSON documents and Python objects is bounded by a depth, the search for a
-- workspace by the size of a path; a theorem says that fuel above that is enough. The builder's
-- recursion takes fuel for the depth of the component tree.
--
-- Not modelled: the RPC transport and its generated code, the system calls of sockets and of the
-- dynamic loader, the ROS and spdlog backends of logger and clock, and the Windows process calls
-- besides the command line.
mod Base
pub mod Params
pub mod Text
pub mod Paths
pub mod Files
pub mod Python
pub mod Json
pub mod Data
pub mod Process
pub mod Executor
pub mod External
pub mod Context
pub mod Builder
pub mod Host
pub mod Network
pub mod Logger
pub mod Clock
pub mod ListDefinitions
pub mod Connection
pub mod Loader
mod Tests
pub mod Server
