-- ===== src/Target/Tests.antt =====
-- The theorems on target.go at what tmux writes for one window.
use wrap.Base.{◌≡◌, refl, ◌≢◌, true, [], arith, Bytes, codes, is_abs, clean}
use wrap.Target.{Target, ok, is_tmux_id, parse_target, parse_tmux}
use wrap.Target.Fields.{print_fields}
use wrap.Target.Resolve.{
  tmux_value, target_fields, Resolvable, parse_tmux-tmux_value, parse_target-print_fields,
  parse_target_sound,
}

-- A field with a colon and a newline, and an empty one.
abbrev some_socket : Bytes
some_socket = codes "/tmp/a,b"

parse_tmux-tmux_value_example : parse_tmux (tmux_value some_socket 41 2) ≡ ok (clean some_socket)
parse_tmux-tmux_value_example =
    parse_tmux-tmux_value some_socket 41 2 refl (omega arith) (omega arith) (omega arith)

abbrev some_target : Target
some_target = record {
  socket_path = some_socket;
  generation = codes "g";
  session_id = codes "$1";
  window_id = codes "@2";
  session_name = codes "main";
  window_name = codes "a:b";
  directory = codes "/home";
}

some_target-Resolvable : Resolvable some_target
unfolding is_tmux_id
some_target-Resolvable = record {
  session_is = refl;
  window_is = refl;
  named = λ e. cc;
  absolute = refl;
  measurable =
      (omega arith, (omega arith, (omega arith, (omega arith, (omega arith, (omega arith, tt))))));
}

abbrev some_report : Bytes
some_report = print_fields (target_fields some_target)

parse_target-print_fields_example :
    parse_target some_socket (codes "g") some_report
    ≡ ok (record some_target { directory = clean (codes "/home") })
parse_target-print_fields_example = parse_target-print_fields some_target some_target-Resolvable

parse_target_sound_example :
    (codes "g" ≡ codes "g")
    × (some_socket ≡ some_socket)
    × (is_tmux_id b'$' (codes "$1") ≡ true)
    × (is_tmux_id b'@' (codes "@2") ≡ true)
    × (codes "main" ≢ [])
    × (is_abs (clean (codes "/home")) ≡ true)
parse_target_sound_example =
    parse_target_sound some_socket (codes "g") some_report
      (parse_target-print_fields some_target some_target-Resolvable)
