-- ===== src/Mirror/Server/Admission/Interleaved.antt =====
-- The invariant of a server and its handlers, however they interleave.
use wrap.Base.{
  ℕ, zero, suc, ◌≡◌, refl, sym, subst, ◌∙◌, inl, inr, Bool, false, ◌||◌, some, arith, ◌==◌,
  Bool-cases, Bytes, count, set, get_elem?, count-get_elem?, count-set, get_elem?-set_self,
  get_elem?-set_other, ==_iff,
}
use wrap.Mirror.Server.{
  LocalServer, Handler, waiting, connected, Event, advance, clients_of, set_secret, set_public_host,
}
use wrap.Mirror.Server.Admission.Handling.{advance-Slots, advance-Good, advance-other}
use wrap.Mirror.Server.Admission.{
  System, moved, rotated, hosted, Step, moves, rotates, hosts, all_waiting, fresh, Reachable,
  starts, next, is_shaking, is_served, Good, Inv,
}

transferred :
    (s t : LocalServer) (told : Bool) (j : ℕ) (h : Handler)
    → t.connections j ≡ s.connections j
    → t.secret_version ≡ s.secret_version
    → Good s told j h
    → Good t told j h
transferred s t told j (connected version) c v (g, inl k) = (c ∙ g, inl (k ∙ sym v))
transferred s t told j (connected version) c v (g, inr k) = (c ∙ g, inr k)
transferred s t told j waiting c v g = c ∙ g
transferred s t told j _ c v g = c ∙ g

rotated-Good :
    (s : LocalServer) (secret : Bytes) (told : Bool) (j : ℕ) (h : Handler)
    → Good s told j h
    → Good (set_secret secret s) (told || clients_of s j) j h
unfolding set_secret clients_of
rotated-Good s secret told j (connected version) (g, k) =
    (g, inr (rw (g, clients_of) (ground arith)))
rotated-Good s secret told j waiting g = g
rotated-Good s secret told j _ g = g

moves-each :
    (x : System) (i : ℕ) (h : Handler) (e : Event)
    → Inv x
    → get_elem? x.handlers i ≡ some h
    → (j : ℕ) (k : Handler) → get_elem? (set x.handlers i (advance i h e x.server).1) j ≡ some k
    → Good (advance i h e x.server).0 (x.told j) j k
moves-each x i h e inv here j k there = elim (Bool-cases (i == j)) [
  | inl same ↦
      (subst
        (λ m.
          get_elem? (set x.handlers i (advance i h e x.server).1) m ≡ some k
          → Good (advance i h e x.server).0 (x.told m) m k)
        ((==_iff i j).0 same)
        (λ q.
          subst (Good (advance i h e x.server).0 (x.told i) i)
            (get_elem?-set_self x.handlers i h (advance i h e x.server).1 k here q)
            (advance-Good i x.server (x.told i) h e (inv.each i h here)))
        there)
  | inr other ↦
      let n : (i ≡ j → ⊥) = λ q. ground (arith, other, q) in
      let f = advance-other i x.server j h e n in
      transferred x.server (advance i h e x.server).0 (x.told j) j k f.0 f.1 (
        inv.each j k
          (sym (get_elem?-set_other x.handlers i j (advance i h e x.server).1 n) ∙ there))
]

Step-Inv : {x y : System} → Step x y → Inv x → Inv y
unfolding moved rotated hosted set_secret set_public_host
Step-Inv (moves x i h e here) inv =
    let shaking = count-get_elem? is_shaking x.handlers i h here in
    let served = count-get_elem? is_served x.handlers i h here in
    let slots =
      advance-Slots i x.server h e (omega (arith, shaking, inv.handshakes_counted))
        (omega (arith, served, inv.clients_counted)) inv.handshakes_bounded inv.clients_bounded in
    let shaking_set = count-set is_shaking x.handlers i h (advance i h e x.server).1 here in
    let served_set = count-set is_served x.handlers i h (advance i h e x.server).1 here in
    record {
      handshakes_counted = omega (arith, slots.0, shaking_set, inv.handshakes_counted);
      handshakes_bounded = slots.2;
      clients_counted = omega (arith, slots.1, served_set, inv.clients_counted);
      clients_bounded = slots.3;
      each = moves-each x i h e inv here;
    }
Step-Inv (rotates x secret) inv = record {
  handshakes_counted = inv.handshakes_counted;
  handshakes_bounded = inv.handshakes_bounded;
  clients_counted = inv.clients_counted;
  clients_bounded = inv.clients_bounded;
  each = λ j k there. rotated-Good x.server secret (x.told j) j k (inv.each j k there);
}
Step-Inv (hosts x host) inv = record {
  handshakes_counted = inv.handshakes_counted;
  handshakes_bounded = inv.handshakes_bounded;
  clients_counted = inv.clients_counted;
  clients_bounded = inv.clients_bounded;
  each = λ j k there.
      transferred x.server (set_public_host host x.server) (x.told j) j k refl refl
        (inv.each j k there);
}

all_waiting-count :
    (n : ℕ) → (count is_shaking (all_waiting n) ≡ 0) × (count is_served (all_waiting n) ≡ 0)
unfolding all_waiting count is_shaking is_served
all_waiting-count zero = (refl, refl)
all_waiting-count (suc n) = let q = all_waiting-count n in (omega (arith, q.0), omega (arith, q.1))

all_waiting-is : (n i : ℕ) (h : Handler) → get_elem? (all_waiting n) i ≡ some h → waiting ≡ h
unfolding all_waiting
all_waiting-is zero i h e = cc
all_waiting-is (suc n) zero h e = cc
all_waiting-is (suc n) (suc i) h e = all_waiting-is n i h e

fresh-Inv : (host secret : Bytes) (n : ℕ) → Inv (fresh host secret n)
unfolding fresh
fresh-Inv host secret n = record {
  handshakes_counted = sym ((all_waiting-count n).0);
  handshakes_bounded = omega arith;
  clients_counted = sym ((all_waiting-count n).1);
  clients_bounded = omega arith;
  each = λ i h e. subst (Good (fresh host secret n).server false i) (all_waiting-is n i h e) refl;
}

-- However the handlers of one server, the rotations of its secret and the changes of its public host
-- interleave: the handshake slots taken are those of the handlers that are before or in a handshake,
-- and at most max_handshakes; the client slots taken are those of the handlers that serve a client,
-- from taking the slot until giving it back, and at most max_clients; and a client that is connected
-- is registered with its version of the secret, which is the current one, or a rotation has gone on
-- to close it. No other handler is registered.
pub reachable-Inv : (host secret : Bytes) (n : ℕ) {x : System} → Reachable host secret n x → Inv x
reachable-Inv host secret n starts = fresh-Inv host secret n
reachable-Inv host secret n (next r st) = Step-Inv st (reachable-Inv host secret n r)
