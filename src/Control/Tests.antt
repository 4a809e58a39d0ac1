-- ===== src/Control/Tests.antt =====
-- The theorems on the control socket for a worker that counts its operations.
use wrap.Base.{
  ℕ, ◌+◌, ◌≡◌, refl, ◌≢◌, ◌↔◌, true, none, some, [], ◌∷◌, ◌++◌, arith, Bytes, codes, equal, Without,
}
use wrap.Base.Json.{Json, eof}
use wrap.Instance.Record.{is_instance_id}
use wrap.Control.Request.{Request, read, validate_request, read_request, action_shutdown}
use wrap.Control.Request.Reading.{read_request-line}
use wrap.Control.Server.{Handler, handle}
use wrap.Control.Server.Guard.{handle_replies, handle_stops_iff}

abbrev ask_shutdown : Request
ask_shutdown = record { instance_id = codes "abcdef"; action = codes "shutdown"; name = [] }

-- A codec that knows one request.
abbrev request_json : Json Request
request_json = record {
  marshal = λ _. some (codes "{}");
  decode = λ _. some (ask_shutdown, []);
  trailing = λ _. eof;
}

ask_shutdown_valid : validate_request ask_shutdown ≡ none
unfolding validate_request is_instance_id equal
ask_shutdown_valid = refl

abbrev counting : Handler ℕ ℕ
counting = record {
  status = λ n. n;
  rename = λ name n. (n + 1, none);
  rotate = λ n. (n + 1, none);
  shutdown = λ n. (n + 1, none);
}

no_newline_inside : Without b'\n' (codes "{}")
no_newline_inside = (λ e. absurd (omega (arith, e)), (λ e. absurd (omega (arith, e)), tt))

read_request-line_example :
    read_request request_json (codes "{}" ++ (b'\n' ∷ codes "tail")) ≡ read ask_shutdown
read_request-line_example =
    read_request-line request_json ask_shutdown (codes "{}") [] (codes "tail") ask_shutdown_valid
      no_newline_inside (omega arith) refl refl

abbrev one_line_request : Bytes
one_line_request = codes "{}" ++ (b'\n' ∷ [])

handle_replies_example :
    (handle counting request_json (codes "abcdef") one_line_request 0).reply ≢ none
handle_replies_example = handle_replies counting request_json (codes "abcdef") one_line_request 0

handle_stops_iff_example :
    ((handle counting request_json (codes "abcdef") one_line_request 0).stops ≡ true) ↔ (
      (r : Request) × (read_request request_json one_line_request ≡ read r)
      × (r.instance_id ≡ codes "abcdef")
      × (r.action ≡ action_shutdown)
      × ((counting.shutdown 0).1 ≡ none))
handle_stops_iff_example =
    handle_stops_iff counting request_json (codes "abcdef") one_line_request 0
