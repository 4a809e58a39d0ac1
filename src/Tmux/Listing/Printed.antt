-- ===== src/Tmux/Listing/Printed.antt =====
-- What tmux prints for `list-sessions` in the format of Sessions, described apart from the code.
use wrap.Base.{
  ℕ, ◌^◌, ◌<◌, ◌≡◌, Bool, true, false, ◌&&◌, ◌||◌, Option, none, some, List, [], ◌∷◌, map, ltb, leb,
  ◌==◌, is_empty, All, Bytes, codes, pos, Without, join, itoa,
}
use wrap.Base.Base64.{Base64}
use wrap.Tmux.Listing.{encode_entry_name, encode_entry_path, is_valid_text, SessionInfo}

abbrev pub is_url_safe : ℕ → Bool
is_url_safe c =
    leb b'a' c && leb c b'z'
    || leb b'A' c && leb c b'Z'
    || leb b'0' c && leb c b'9'
    || c == b'-'
    || c == b'_'

-- RawURLEncoding decodes what it encodes, and encodes into its alphabet.
pub record IsBase64 (base64 : Base64) : Type 0 where
  pub decode-encode : (s : Bytes) → base64.decode (base64.encode s) ≡ some s
  pub url_safe : (s : Bytes) → All (λ c. is_url_safe c ≡ true) (base64.encode s)

-- A session as tmux knows it; `entry` is what its marker was encoded of, if it has one.
pub record Listed : Type 0 where
  pub id : Bytes
  pub generation : Bytes
  pub name : Bytes
  pub activity : ℕ
  pub clients : ℕ
  pub window_bell : Bool
  pub rang : Bool
  pub entry : Option Bytes
  pub path : Option Bytes
  pub kind : Bytes
  pub created : ℕ

abbrev pub flag : Bool → Bytes
flag true = codes "1"
flag false = codes "0"

abbrev pub mark_of : Bool → Bytes
mark_of true = codes "1"
mark_of false = []

abbrev pub or_none : (Bytes → Bytes) → Option Bytes → Bytes
or_none f none = []
or_none f (some s) = f s

module _ (base64 : Base64) where
  -- The fields that the format of Sessions asks for.
  unfoldable pub listed_fields : Listed → List Bytes
  listed_fields l =
      l.name
      ∷ itoa l.activity
      ∷ itoa l.clients
      ∷ flag l.window_bell
      ∷ mark_of l.rang
      ∷ or_none (encode_entry_name base64) l.entry
      ∷ or_none (encode_entry_path base64) l.path
      ∷ l.id
      ∷ l.generation
      ∷ itoa l.created
      ∷ l.kind
      ∷ []

  -- What tmux prints for the sessions.
  unfoldable pub print_sessions : List Listed → Bytes
  unfolding listed_fields
  print_sessions ls = join b'\n' (map (λ l. join b'\t' (listed_fields l)) ls)

  unfoldable pub info_of : Listed → SessionInfo
  info_of l = record {
    id = l.id;
    generation = l.generation;
    name = l.name;
    activity = pos l.activity;
    attached = ltb 0 l.clients;
    bell = l.window_bell || l.rang;
    entry_name = or_none (λ n. n) l.entry;
    entry_path_token = or_none (encode_entry_path base64) l.path;
    kind = l.kind;
    created = pos l.created;
  }

abbrev pub IsClean : Bytes → Type 0
IsClean s = Without b'\t' s × Without b'\n' s

abbrev pub IsEntryName : Option Bytes → Type 0
IsEntryName none = Unit
IsEntryName (some n) = (is_empty n ≡ false) × (is_valid_text n ≡ true)

-- Texts without tabs and newlines, times that an int64 holds, and a marker that is a valid text.
pub record IsListed (l : Listed) : Type 0 where
  pub id_clean : IsClean l.id
  pub generation_clean : IsClean l.generation
  pub name_clean : IsClean l.name
  pub kind_clean : IsClean l.kind
  pub activity_fits : l.activity < 2 ^ 63
  pub created_fits : l.created < 2 ^ 63
  pub entry_valid : IsEntryName l.entry
