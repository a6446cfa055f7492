-- ===== src/Optimizer/Registry.antt =====
-- task_orchestrator/src/optimizer/backend_registry.cpp: which backends there are, by their kinds,
-- and which of them is created.
use Prim.Native.String.{◌++◌}
use task_orchestrator.Base.{
  ℕ, eqb, String, ◌==◌, Bool, true, false, not, ◌||◌, List, [], ◌∷◌, map, Option, none, some, lt_id,
  sort_by, if◌then◌else◌,
}
use task_orchestrator.Scheduler.Capacity.{or_else}
use task_orchestrator.Optimizer.Types.{
  BackendKind, auto, indexed_exact, or_tools_cp_sat, commercial_mip, BackendDescriptor,
}

-- A factory is an empty `std::function`, or gives a backend or a null pointer.
pub record BackendEntry (B : Type 0) : Type 0 where
  pub descriptor : BackendDescriptor
  pub factory : Option (Option B)

abbrev pub place_of : BackendKind → ℕ
place_of auto = 0
place_of indexed_exact = 1
place_of or_tools_cp_sat = 2
place_of commercial_mip = 3

abbrev pub same_kind : BackendKind → BackendKind → Bool
same_kind a b = eqb (place_of a) (place_of b)

abbrev pub backend_auto_order : List BackendKind
backend_auto_order = or_tools_cp_sat ∷ commercial_mip ∷ indexed_exact ∷ []

unfoldable pub backend_kind_from_string : String → BackendKind
backend_kind_from_string value =
    if value == "indexed_exact" || value == "indexed_branch_and_bound"
    then indexed_exact
    else if value == "ortools_cp_sat" || (value == "cp_sat" || value == "ortools")
    then or_tools_cp_sat
    else if value == "commercial_mip" || value == "mip"
    then commercial_mip
    else auto

unfoldable pub backend_kind_to_string : BackendKind → String
backend_kind_to_string indexed_exact = "indexed_exact"
backend_kind_to_string or_tools_cp_sat = "ortools_cp_sat"
backend_kind_to_string commercial_mip = "commercial_mip"
backend_kind_to_string auto = "auto"

abbrev pub supported_backend_catalog : List BackendDescriptor
supported_backend_catalog =
    record {
      kind = commercial_mip;
      name = "commercial_mip";
      available = false;
      optional_dependency = true;
    }
    ∷ record {
      kind = indexed_exact;
      name = "indexed_exact";
      available = true;
      optional_dependency = false;
    }
    ∷ record {
      kind = or_tools_cp_sat;
      name = "ortools_cp_sat";
      available = false;
      optional_dependency = true;
    }
    ∷ []

-- `*error_message = message`, where the pointer is not null.
abbrev pub write_error : String → Option String → Option String
write_error message none = none
write_error message (some old) = some message

abbrev pub by_name : BackendDescriptor → BackendDescriptor → Bool
by_name lhs rhs = lt_id lhs.name rhs.name

module _ {B : Type 0} where
  unfoldable pub find_backend : BackendKind → List (BackendEntry B) → Option (BackendEntry B)
  find_backend kind [] = none
  find_backend kind (entry ∷ entries) =
      if same_kind entry.descriptor.kind kind then some entry else find_backend kind entries

  unfoldable pub register_backend :
      BackendDescriptor → Option (Option B) → List (BackendEntry B) → List (BackendEntry B)
  register_backend descriptor factory [] =
      record { descriptor = descriptor; factory = factory } ∷ []
  register_backend descriptor factory (entry ∷ entries) =
      if same_kind entry.descriptor.kind descriptor.kind
      then record { descriptor = descriptor; factory = factory } ∷ entries
      else entry ∷ register_backend descriptor factory entries

  unfoldable pub list_registered_backends : List (BackendEntry B) → List BackendDescriptor
  list_registered_backends entries =
      sort_by by_name (map (λ (e : BackendEntry B). e.descriptor) entries)

  -- The body of the loop over the catalog.
  abbrev pub registered_or : List (BackendEntry B) → BackendDescriptor → BackendDescriptor
  registered_or entries descriptor = elim (find_backend descriptor.kind entries) [
    | none ↦ descriptor
    | some entry ↦ entry.descriptor
  ]

  unfoldable pub list_supported_backends : List (BackendEntry B) → List BackendDescriptor
  unfolding find_backend
  list_supported_backends entries =
      sort_by by_name (map (registered_or entries) supported_backend_catalog)

  abbrev pub call : Option (Option B) → Option B
  call none = none
  call (some result) = result

  -- What is returned, and what the error message then is.
  unfoldable pub create_from_entry :
      BackendKind → Option (BackendEntry B) → Option String → Option B × Option String
  unfolding backend_kind_to_string
  create_from_entry kind none error = (
    none,
    write_error
        ("Requested backend '"
          ++ backend_kind_to_string kind
          ++ "' is not linked into this binary.")
        error,
  )
  create_from_entry kind (some entry) error =
      if not entry.descriptor.available
      then (
        none,
        write_error
            ("Requested backend '" ++ entry.descriptor.name ++ "' is registered but not available.")
            error,
      )
      else (call entry.factory, error)

  unfoldable pub create_backend_for_registered_kind :
      BackendKind → List (BackendEntry B) → Option String → Option B × Option String
  unfolding find_backend create_from_entry
  create_backend_for_registered_kind kind entries error =
      create_from_entry kind (find_backend kind entries) error

  -- The loop over `kBackendAutoOrder`.
  unfoldable pub create_first : List BackendKind → List (BackendEntry B) → Option B
  unfolding create_backend_for_registered_kind
  create_first [] entries = none
  create_first (kind ∷ kinds) entries =
      let rest = create_first kinds entries in
      or_else (create_backend_for_registered_kind kind entries none).0 rest

  abbrev pub or_no_backend : Option B → Option String → Option B × Option String
  or_no_backend (some backend) error = (some backend, error)
  or_no_backend none error = (none, write_error "No optimization backend is available." error)

  unfoldable pub create_backend :
      BackendKind → List (BackendEntry B) → Option String → Option B × Option String
  unfolding create_first create_backend_for_registered_kind
  create_backend auto entries error = or_no_backend (create_first backend_auto_order entries) error
  create_backend kind entries error = create_backend_for_registered_kind kind entries error
