-- ===== src/Cli/Library.antt =====
-- The count of the handles that keep the library open: lib/src/core/cli/Start.cc. The handles that
-- are there are known by their place in a list; one that was destroyed keeps its place.
pub mod Counted
use no.Prelude.{
  ℕ, zero, suc, ◌+◌, ◌-◌, Bool, true, false, Option, none, some, List, [], ◌∷◌, ◌++◌, ◌==◌,
  if◌then◌else◌, ◌>>=◌,
}

-- A handle that was moved from is not active.
pub data Handle : Type 0 where
  alive : (active : Bool) → Handle
  destroyed : Handle

-- `RCInitializationContextCounter`, the handles, and whether `PerformInitialize` has been run without
-- `PerformDeinitialize` behind it.
pub record Library : Type 0 where
  pub counter : ℕ
  pub handles : List Handle
  pub is_initialized : Bool

abbrev pub closed : Library
closed = record { counter = 0; handles = []; is_initialized = false }

-- `m_active` of a handle that is alive.
abbrev pub active_of : ℕ → List Handle → Option Bool
active_of i [] = none
active_of zero (alive active ∷ hs) = some active
active_of zero (destroyed ∷ hs) = none
active_of (suc i) (h ∷ hs) = active_of i hs

abbrev pub put : ℕ → Handle → List Handle → List Handle
put i h [] = []
put zero h (g ∷ hs) = h ∷ hs
put (suc i) h (g ∷ hs) = g ∷ put i h hs

-- `if (m_active) ++RCInitializationContextCounter;`
abbrev count_up : Bool → ℕ → ℕ
count_up active counter = if active then counter + 1 else counter

-- `GetInitializationContext`, where `init_ok` is what `PerformInitialize` gives if it is called; the
-- result says whether there is a new handle.
unfoldable pub get_initialization_context : (init_ok : Bool) → Library → Bool × Library
get_initialization_context init_ok l =
    let opened : Bool × Library = (
      true,
      record {
        counter = l.counter + 1;
        handles = l.handles ++ alive true ∷ [];
        is_initialized = true;
      },
    ) in
    if l.counter + 1 == 1
    then (if init_ok then opened else (false, record l { counter = 0 }))
    else (true, record l { counter = l.counter + 1; handles = l.handles ++ alive true ∷ [] })

-- `RCInitializationContext(const RCInitializationContext&)`
unfoldable pub copy : ℕ → Library → Option Library
copy i l = do
  active ← active_of i l.handles
  some (record l { counter = count_up active l.counter; handles = l.handles ++ alive active ∷ [] })

-- `RCInitializationContext(RCInitializationContext&&)`
unfoldable pub move : ℕ → Library → Option Library
move i l = do
  active ← active_of i l.handles
  some (record l { handles = put i (alive false) l.handles ++ alive active ∷ [] })

-- `operator=(const RCInitializationContext&)` to the handle `i` from the handle `j`.
unfoldable pub assign : ℕ → ℕ → Library → Option Library
assign i j l = do
  old ← active_of i l.handles
  active ← active_of j l.handles
  some (record l { counter = count_up active l.counter; handles = put i (alive active) l.handles })

-- `operator=(RCInitializationContext&&)`
unfoldable pub move_assign : ℕ → ℕ → Library → Option Library
move_assign i j l = do
  old ← active_of i l.handles
  active ← active_of j l.handles
  some (record l { handles = put j (alive false) (put i (alive active) l.handles) })

-- `~RCInitializationContext`
unfoldable pub destroy : ℕ → Library → Option Library
destroy i l = do
  active ← active_of i l.handles
  let handles : List Handle = put i destroyed l.handles
  some (
      if active
      then record {
        counter = l.counter - 1;
        handles = handles;
        is_initialized = if l.counter - 1 == 0 then false else l.is_initialized;
      }
      else record l { handles = handles })
