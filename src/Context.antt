-- ===== src/Context.antt =====
-- class ComponentContext of include/rpp_cpp/context.hpp. Plugin instances and server processes are
-- handles; what a plugin's initialize does is a parameter.
pub mod Initialize
pub mod Lookup
pub mod Everywhere
use rpp_cpp.Base.{◌≡◌, Bool, String, ◌<>◌, List, [], ◌∷◌, ◌++◌, Option, none, some, not}
use rpp_cpp.Base.Result.{
  Result, ok, err, runtime_error, out_of_range, guard, or_throw, traverse, ◌>>=◌, ◌>>◌, >>=-eq-ok,
  ok_inj,
}
use rpp_cpp.Base.Dict.{Dict, find, contains, keys}
use rpp_cpp.Logger.{RppLogger, logger, default_options}
use rpp_cpp.Clock.{ClockOptions, RppClock, create_clock}
use rpp_cpp.Params.Store.{Parameters, get_parameter}
use rpp_cpp.Params.Convert.{ParameterConverter}

pub record Own (Plugin Process : Type 0) : Type 0 where
  pub parameters : Parameters
  pub external_component_process : Option Process
  pub instance_ : Option Plugin
  pub logger : RppLogger
  pub clock : RppClock

mutual
  pub data ComponentContext (Plugin Process : Type 0) : Type 0 where
    context : Own Plugin Process → Slots Plugin Process → ComponentContext Plugin Process

  -- subcomponents_, in the order of the slots' names
  pub data Slots (Plugin Process : Type 0) : Type 0 where
    no_slots : Slots Plugin Process
    slot : String → Contexts Plugin Process → Slots Plugin Process → Slots Plugin Process

  pub data Contexts (Plugin Process : Type 0) : Type 0 where
    no_contexts : Contexts Plugin Process
    one : ComponentContext Plugin Process → Contexts Plugin Process → Contexts Plugin Process

module _ {Plugin Process : Type 0} where
  unfoldable pub contexts : Contexts Plugin Process → List (ComponentContext Plugin Process)
  contexts no_contexts = []
  contexts (one c cs) = c ∷ contexts cs

  unfoldable pub contexts_of : List (ComponentContext Plugin Process) → Contexts Plugin Process
  contexts_of [] = no_contexts
  contexts_of (c ∷ cs) = one c (contexts_of cs)

  unfoldable pub slots : Slots Plugin Process → Dict (List (ComponentContext Plugin Process))
  unfolding contexts
  slots no_slots = []
  slots (slot name cs rest) = (name, contexts cs) ∷ slots rest

  unfoldable pub slots_of : Dict (List (ComponentContext Plugin Process)) → Slots Plugin Process
  unfolding contexts_of
  slots_of [] = no_slots
  slots_of ((name, cs) ∷ rest) = slot name (contexts_of cs) (slots_of rest)

  abbrev pub own : ComponentContext Plugin Process → Own Plugin Process
  own (context o s) = o

  abbrev pub subcomponents :
      ComponentContext Plugin Process → Dict (List (ComponentContext Plugin Process))
  subcomponents (context o s) = slots s

  -- The constructors: each context makes a logger and a clock of its own.
  unfoldable pub component_context :
      Option Plugin
      → Parameters
      → Option Process
      → Dict (List (ComponentContext Plugin Process))
      → ClockOptions
      → Result (ComponentContext Plugin Process)
  unfolding slots_of
  component_context instance_ parameters process subcomponents clock_options = do
    clock ← create_clock clock_options
    ok (
        context
          (record {
            parameters = parameters;
            external_component_process = process;
            instance_ = instance_;
            logger = logger default_options;
            clock = clock;
          })
          (slots_of subcomponents))

  pub component_context-made :
      (i : Option Plugin) (params : Parameters) (process : Option Process)
      (subcomponents : Dict (List (ComponentContext Plugin Process))) (options : ClockOptions)
      (ctx : ComponentContext Plugin Process)
      → component_context i params process subcomponents options ≡ ok ctx
      → (clock : RppClock) × (create_clock options ≡ ok clock)
        × (context
              (record {
                parameters = params;
                external_component_process = process;
                instance_ = i;
                logger = logger default_options;
                clock = clock;
              })
              (slots_of subcomponents)
            ≡ ctx)
  unfolding component_context
  component_context-made i params process subcomponents options ctx e =
      let (c, f, e1) = >>=-eq-ok (create_clock options) _ e in (c, f, ok_inj e1)

  -- ComponentContext::get_parameter<T>, whose own test comes before the parameters' one.
  unfoldable pub context_parameter :
      {T : Type 0} → ParameterConverter T → ComponentContext Plugin Process → String → Result T
  context_parameter c ctx name = do
    guard (contains name (own ctx).parameters.values)
        (runtime_error ("Parameter '" <> name <> "' not found."))
    get_parameter c (own ctx).parameters name

  unfoldable pub list_subcomponents : ComponentContext Plugin Process → List String
  list_subcomponents ctx = keys (subcomponents ctx)

  unfoldable pub get_instance : ComponentContext Plugin Process → Result Plugin
  get_instance ctx =
      or_throw (own ctx).instance_ (runtime_error "Failed to cast instance to the requested type.")

  unfoldable pub get_subcomponent_contexts :
      ComponentContext Plugin Process → String → Result (List (ComponentContext Plugin Process))
  get_subcomponent_contexts ctx name = do
    guard (contains name (subcomponents ctx))
        (runtime_error ("Subcomponent '" <> name <> "' not found."))
    or_throw (find name (subcomponents ctx)) out_of_range

  abbrev first_of :
      String → List (ComponentContext Plugin Process) → Result (ComponentContext Plugin Process)
  first_of name [] = err (runtime_error ("Subcomponent slot '" <> name <> "' is empty."))
  first_of name (c ∷ cs) = ok c

  unfoldable pub get_subcomponent_context :
      ComponentContext Plugin Process → String → Result (ComponentContext Plugin Process)
  unfolding get_subcomponent_contexts
  get_subcomponent_context ctx name = do cs ← get_subcomponent_contexts ctx name; first_of name cs

  unfoldable pub get_component : ComponentContext Plugin Process → String → Result Plugin
  unfolding get_instance
  get_component ctx name = do
    guard (contains name (subcomponents ctx))
        (runtime_error ("Subcomponent '" <> name <> "' not found."))
    cs ← or_throw (find name (subcomponents ctx)) out_of_range
    c ← first_of name cs
    get_instance c

  unfoldable pub get_components : ComponentContext Plugin Process → String → Result (List Plugin)
  unfolding get_instance
  get_components ctx name = do
    guard (contains name (subcomponents ctx))
        (runtime_error ("Subcomponent '" <> name <> "' not found."))
    cs ← or_throw (find name (subcomponents ctx)) out_of_range
    traverse get_instance cs

-- The calls of Plugin::initialize made so far, and an exception that has ended them.
abbrev pub Calls : Type 0 → Type 0
Calls Plugin = List Plugin × Result (Unit {0})

-- What follows, unless an exception has been thrown.
abbrev pub then_calls : {Plugin : Type 0} → Calls Plugin → Calls Plugin → Calls Plugin
then_calls (made, ok _) (later, r) = (made ++ later, r)
then_calls (made, err e) next = (made, err e)

abbrev pub initialize_instance :
    {Plugin : Type 0} → (Plugin → Result (Unit {0})) → Option Plugin → Calls Plugin
initialize_instance initialize_plugin none = ([], ok tt)
initialize_instance initialize_plugin (some p) = (p ∷ [], initialize_plugin p)

module _ {Plugin Process : Type 0} (initialize_plugin : Plugin → Result (Unit {0})) where
  unfoldable mutual
    pub initialize : ComponentContext Plugin Process → Calls Plugin
    initialize (context o s) =
        then_calls (initialize_slots s) (initialize_instance initialize_plugin o.instance_)

    pub initialize_slots : Slots Plugin Process → Calls Plugin
    initialize_slots no_slots = ([], ok tt)
    initialize_slots (slot name cs rest) = then_calls (initialize_all cs) (initialize_slots rest)

    pub initialize_all : Contexts Plugin Process → Calls Plugin
    initialize_all no_contexts = ([], ok tt)
    initialize_all (one c cs) = then_calls (initialize c) (initialize_all cs)
