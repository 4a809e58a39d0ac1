-- ===== src/Tmux/Format.antt =====
-- The conditions that guard a command: `#{==:#{variable},literal}` and `#{&&:condition,condition}`.
pub mod Reading
pub mod Conditions
use wrap.Base.{[], ◌++◌, Bytes, codes}
use wrap.Tmux.Quote.{escape_format_literal}

pub equals : Bytes → Bytes → Bytes
equals variable value = codes "#{==:#{" ++ variable ++ codes "}," ++ value ++ codes "}"

pub both : Bytes → Bytes → Bytes
both a b = codes "#{&&:" ++ a ++ codes "," ++ b ++ codes "}"

abbrev pub server_generation_option : Bytes
server_generation_option = codes "@wrap_server_generation"

abbrev pub session_kind_option : Bytes
session_kind_option = codes "@wrap_session_kind"

abbrev pub entry_name_option : Bytes
entry_name_option = codes "@wrap_entry_name"

abbrev pub entry_path_option : Bytes
entry_path_option = codes "@wrap_entry_path"

-- The condition of KillSessionIDIfGenerationAndName.
unfoldable pub name_condition : Bytes → Bytes → Bytes
unfolding equals both
name_condition generation name =
    both (equals server_generation_option generation)
      (equals (codes "session_name") (escape_format_literal name))

-- The condition of KillSessionIDIfGenerationAndNameAndOption.
unfoldable pub option_condition : Bytes → Bytes → Bytes → Bytes → Bytes
unfolding equals both
option_condition generation name option value = both (equals server_generation_option generation) (
    both (equals (codes "session_name") (escape_format_literal name))
      (equals option (escape_format_literal value)))

-- The condition of the operations on a session of a kind; kinds are not escaped.
unfoldable pub kind_condition : Bytes → Bytes → Bytes → Bytes
unfolding equals both
kind_condition generation name kind = both (equals server_generation_option generation) (
    both (equals (codes "session_name") (escape_format_literal name))
      (equals session_kind_option kind))

-- The condition of SetUnmarkedSessionKindIfGenerationAndName.
unfoldable pub unmarked_condition : Bytes → Bytes → Bytes
unfolding equals both
unmarked_condition generation name = both (equals server_generation_option generation) (
    both (equals (codes "session_name") (escape_format_literal name)) (
      both (equals session_kind_option [])
        (both (equals entry_name_option []) (equals entry_path_option []))))

-- The condition of a command on the window that a session shows.
unfoldable pub window_condition : Bytes → Bytes → Bytes
unfolding equals both
window_condition generation window_id =
    both (equals server_generation_option generation) (equals (codes "window_id") window_id)
