-- ===== src/Instance/Store/World.antt =====
-- The state directory as a store meets it, and the monad of calls that may fail.
use wrap.Base.{Bool, true, false, Option, none, some, List, [], ◌∷◌, if◌then◌else◌, Bytes, equal}
use wrap.Instance.Record.{RecordFault}
use wrap.Instance.Name.{NameError}

-- A regular file with its bytes, or anything else: a symbolic link, a directory, a socket.
pub data Node : Type 0 where
  regular : Bytes → Node
  irregular : Node

pub record World : Type 0 where
  -- The files of the directory of records.
  pub entries : List (Bytes × Node)
  pub faults : List Bool

pub data StoreError : Type 0 where
  invalid_id invalid_pid root_required no_encoding : StoreError
  io id_exists name_exists selector_collision target_taken path_exists not_regular : StoreError
  no_such_instance ambiguous undecodable : StoreError
  invalid_record : RecordFault → StoreError
  invalid_name : NameError → StoreError

pub data Result {ℓ} (A : Type ℓ) : Type ℓ where
  ok : A → Result A
  err : StoreError → Result A

abbrev pub M : Type 0 → Type 0
M A = World → Result A × World

abbrev pub bound : {A B : Type 0} → Result A × World → (A → M B) → Result B × World
bound (ok a, w) f = f a w
bound (err e, w) f = (err e, w)

infixl 5 ◌>>=◌ ◌>>◌
abbrev pub ◌>>=◌ : {A B : Type 0} → M A → (A → M B) → M B
◌>>=◌ m f w = bound (m w) f

abbrev pub ◌>>◌ : {B : Type 0} → M (Unit {0}) → M B → M B
m >> k = m >>= λ _. k

abbrev pub pure : {A : Type 0} → A → M A
pure a w = (ok a, w)

abbrev pub fail : {A : Type 0} → StoreError → M A
fail e w = (err e, w)

abbrev pub refuse_if : Bool → StoreError → M (Unit {0})
refuse_if true e w = (err e, w)
refuse_if false e w = (ok tt, w)

abbrev pub next_fault : List Bool → Bool × List Bool
next_fault [] = (false, [])
next_fault (f ∷ fs) = (f, fs)

-- Whether the next system call fails.
unfoldable pub attempt : M Bool
attempt w = (ok (next_fault w.faults).0, record w { faults = (next_fault w.faults).1 })

-- A system call whose failure is an error.
unfoldable pub call : M (Unit {0})
unfolding attempt
call = do failed ← attempt; refuse_if failed io

unfoldable pub lookup_entry : Bytes → List (Bytes × Node) → Option Node
lookup_entry k [] = none
lookup_entry k ((j, n) ∷ es) = if equal j k then some n else lookup_entry k es

unfoldable pub put_entry : Bytes → Node → List (Bytes × Node) → List (Bytes × Node)
put_entry k n [] = (k, n) ∷ []
put_entry k n ((j, m) ∷ es) = if equal j k then (k, n) ∷ es else (j, m) ∷ put_entry k n es

unfoldable pub erase_entry : Bytes → List (Bytes × Node) → List (Bytes × Node)
erase_entry k [] = []
erase_entry k ((j, m) ∷ es) = if equal j k then erase_entry k es else (j, m) ∷ erase_entry k es

abbrev pub update_entries : (List (Bytes × Node) → List (Bytes × Node)) → M (Unit {0})
update_entries f w = (ok tt, record w { entries = f w.entries })
