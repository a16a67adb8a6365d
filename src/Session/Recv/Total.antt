-- ===== src/Session/Recv/Total.antt =====
-- A round of the receive loop takes bytes of its input, and enough fuel is enough.
use anytls_go.Common.{
  ℕ, zero, suc, ◌<◌, ◌≤◌, ◌≡◌, ◌∙◌, sym, refl, Bytes, [], ◌∷◌, Option, none, some, Bool, true,
  length, length-drop, arith, Error, Result, ok, err, if_elim, if◌then◌else◌, not, ◌&&◌, ltb,
}
use native.Mathlib.Nat.{le_refl}
use anytls_go.Frame.{
  Command, waste, syn, psh, fin, settings, alert, update_padding_scheme, syn_ack, heart_request,
  heart_response, server_settings, unknown, Header, read_header, read_full,
}
use anytls_go.StringMap.{from_bytes}
use anytls_go.Session.State.{Session}
use anytls_go.Session.Write.{Env}
use anytls_go.Session.Streams.{accept_stream}
use anytls_go.Session.Recv.{
  Recv, Round, more, stop, took, with_payload, or_stop, on_syn, on_syn_ack, on_settings, dispatch,
  with_header, send_scheme, send_version, at_least, version, round, finish, recv_loop, recv,
}

-- A round leaves no more than n bytes of its input.
data Within (n : ℕ) : Round → Type 0 where
  goes : {r : Recv} {rest : Bytes} → length rest ≤ n → Within n (more r rest)
  stops : {r : Recv} {e : Option Error} → Within n (stop r e)

Within-mono : {m n : ℕ} {x : Round} → m ≤ n → Within m x → Within n x
Within-mono h (goes w) = goes (omega arith)
Within-mono h stops = stops

read_full-le :
    (n : ℕ) (input p rest : Bytes) → read_full n input ≡ some (p, rest) → length rest ≤ length input
unfolding read_full
read_full-le n input p rest h = ground (arith, length-drop n input)

took-Within :
    (n : ℕ) (r : Recv) (k : Bytes → Bytes → Round) (o : Option (Bytes × Bytes))
    → ((p rest : Bytes) → o ≡ some (p, rest) → length rest ≤ n)
    → ((p rest : Bytes) → Within (length rest) (k p rest))
    → Within n (took r k o)
took-Within n r k none h w = stops
took-Within n r k (some (p, rest)) h w = Within-mono (h p rest refl) (w p rest)

with_payload-Within :
    (n : ℕ) (input : Bytes) (r : Recv) (k : Bytes → Bytes → Round)
    → ((p rest : Bytes) → Within (length rest) (k p rest))
    → Within (length input) (with_payload n input r k)
with_payload-Within n input r k =
    took-Within (length input) r k (read_full n input) (read_full-le n input)

or_stop-Within :
    (n : ℕ) (g : Bool) (x : Session × Result ℕ) (k : Session → Round)
    → ((s : Session) → Within n (k s))
    → Within n (or_stop g x k)
or_stop-Within n g (s, ok a) k h = h s
or_stop-Within n g (s, err e) k h = stops

-- A switch case that reads the payload, if there is one.
payload-Within :
    (len : ℕ) (input : Bytes) (r r' : Recv) (k : Bytes → Bytes → Round)
    → ((p rest : Bytes) → Within (length rest) (k p rest))
    → Within (length input) (if ltb 0 len then with_payload len input r' k else more r input)
payload-Within len input r r' k h =
    if_elim (Within (length input)) (ltb 0 len) _ _ (λ e. with_payload-Within len input r' k h)
      (λ e. goes (le_refl (length input)))

on_settings-Within :
    (env : Env) (p rest : Bytes) (r : Recv) → Within (length rest) (on_settings env p rest r)
unfolding on_settings
on_settings-Within env p rest r =
    if_elim (Within (length rest)) r.session.is_client _ _ (λ e. goes (le_refl (length rest)))
      (λ e. or_stop-Within (length rest) true (send_scheme env (from_bytes p) r.session) _ (λ s.
        or_stop-Within (length rest) true (send_version env (at_least 2 (version (from_bytes p))) s)
          _ (λ s'. goes (le_refl (length rest)))))

on_syn-Within :
    (env : Env) (sid : ℕ) (input : Bytes) (r : Recv)
    → Within (length input) (on_syn env sid input r)
unfolding on_syn
on_syn-Within env sid input r =
    if_elim (Within (length input)) (not r.session.is_client && not r.got_settings) _ _ (λ e. stops)
      (λ e.
        if_elim (Within (length input)) (accept_stream sid r.session).1 _ _
          (λ f. goes (le_refl (length input)))
          (λ f.
            or_stop-Within (length input) r.got_settings _ _ (λ s. goes (le_refl (length input)))))

on_syn_ack-Within :
    (env : Env) (sid len : ℕ) (input : Bytes) (r : Recv)
    → Within (length input) (on_syn_ack env sid len input r)
unfolding on_syn_ack
on_syn_ack-Within env sid len input r =
    payload-Within len input _ _ _ (λ p rest. goes (le_refl (length rest)))

dispatch-Within :
    (env : Env) (c : Command) (sid len : ℕ) (input : Bytes) (r : Recv)
    → Within (length input) (dispatch env c sid len input r)
unfolding dispatch
dispatch-Within env waste sid len input r =
    payload-Within len input _ _ _ (λ p rest. goes (le_refl (length rest)))
dispatch-Within env syn sid len input r = on_syn-Within env sid input r
dispatch-Within env psh sid len input r =
    payload-Within len input _ _ _ (λ p rest. goes (le_refl (length rest)))
dispatch-Within env fin sid len input r = goes (le_refl (length input))
dispatch-Within env settings sid len input r =
    payload-Within len input _ _ _ (λ p rest. on_settings-Within env p rest r)
dispatch-Within env alert sid len input r = payload-Within len input _ _ _ (λ p rest. stops)
dispatch-Within env update_padding_scheme sid len input r =
    payload-Within len input _ _ _ (λ p rest. goes (le_refl (length rest)))
dispatch-Within env syn_ack sid len input r = on_syn_ack-Within env sid len input r
dispatch-Within env heart_request sid len input r =
    or_stop-Within (length input) r.got_settings _ _ (λ s. goes (le_refl (length input)))
dispatch-Within env heart_response sid len input r = goes (le_refl (length input))
dispatch-Within env server_settings sid len input r =
    payload-Within len input _ _ _ (λ p rest. goes (le_refl (length rest)))
dispatch-Within env (unknown b) sid len input r = goes (le_refl (length input))

read_header-lt :
    (input : Bytes) (h : Header) (rest : Bytes)
    → read_header input ≡ some (h, rest)
    → length rest < length input
unfolding read_header
read_header-lt (c ∷ a ∷ b ∷ d ∷ e ∷ l ∷ m ∷ rest') h rest eq = ground arith
read_header-lt [] h rest eq = cc
read_header-lt (a ∷ []) h rest eq = cc
read_header-lt (a ∷ b ∷ []) h rest eq = cc
read_header-lt (a ∷ b ∷ c ∷ []) h rest eq = cc
read_header-lt (a ∷ b ∷ c ∷ d ∷ []) h rest eq = cc
read_header-lt (a ∷ b ∷ c ∷ d ∷ e ∷ []) h rest eq = cc
read_header-lt (a ∷ b ∷ c ∷ d ∷ e ∷ f ∷ []) h rest eq = cc

-- What a round that goes on leaves is shorter than its input.
abbrev Shorter : ℕ → Round → Type 0
Shorter n (more r rest) = length rest < n
Shorter n (stop r e) = Unit {0}

Shorter-Within : {n m : ℕ} {x : Round} → m < n → Within m x → Shorter n x
Shorter-Within h (goes w) = omega arith
Shorter-Within h stops = tt

with_header-Shorter :
    (env : Env) (n : ℕ) (r : Recv) (o : Option (Header × Bytes))
    → ((h : Header) (rest : Bytes) → o ≡ some (h, rest) → length rest < n)
    → Shorter n (with_header env r o)
with_header-Shorter env n r none h = tt
with_header-Shorter env n r (some (hd, rest)) h =
    Shorter-Within (h hd rest refl) (dispatch-Within env hd.cmd hd.sid hd.len rest r)

round-Shorter : (env : Env) (input : Bytes) (r : Recv) → Shorter (length input) (round env input r)
unfolding round
round-Shorter env input r =
    if_elim (Shorter (length input)) r.session.closed _ _ (λ e. tt)
      (λ e. with_header-Shorter env (length input) r (read_header input) (read_header-lt input))

-- Two fuels that exceed the input give the same run.
abbrev loop_case : Env → ℕ → Round → Option (Recv × Option Error)
loop_case env fuel (more r rest) = recv_loop env fuel rest r
loop_case env fuel (stop r e) = some (finish r, e)

recv_loop_step :
    (env : Env) (fuel : ℕ) (input : Bytes) (r : Recv)
    → recv_loop env (suc fuel) input r ≡ loop_case env fuel (round env input r)
unfolding recv_loop
recv_loop_step env fuel input r = ground arith

case_agree :
    (env : Env) (f g : ℕ) (x : Round) (n : ℕ)
    → Shorter n x
    → n ≤ f
    → n ≤ g
    → ((rest : Bytes) (r : Recv)
        → length rest < f
        → length rest < g
        → recv_loop env f rest r ≡ recv_loop env g rest r)
    → loop_case env f x ≡ loop_case env g x
case_agree env f g (more r rest) n h le le' ih = ih rest r (omega arith) (omega arith)
case_agree env f g (stop r e) n h le le' ih = refl

fuel_agree :
    (env : Env) (f g : ℕ) (input : Bytes) (r : Recv)
    → length input < f
    → length input < g
    → recv_loop env f input r ≡ recv_loop env g input r
fuel_agree env zero g input r h k = absurd (omega arith)
fuel_agree env (suc f) zero input r h k = absurd (omega arith)
fuel_agree env (suc f) (suc g) input r h k =
    recv_loop_step env f input r
    ∙ case_agree env f g (round env input r) (length input) (round-Shorter env input r)
        (omega arith) (omega arith) (λ rest r'. fuel_agree env f g rest r')
    ∙ sym (recv_loop_step env g input r)

-- The loop as an equation without fuel.
abbrev pub recv_case : Env → Round → Option (Recv × Option Error)
recv_case env (more r rest) = recv env rest r
recv_case env (stop r e) = some (finish r, e)

case_recv :
    (env : Env) (f n : ℕ) (x : Round) → Shorter n x → n ≤ f → loop_case env f x ≡ recv_case env x
unfolding recv
case_recv env f n (more r rest) h le =
    fuel_agree env f (suc (length rest)) rest r (omega arith) (omega arith)
case_recv env f n (stop r e) h le = refl

pub recv_step :
    (env : Env) (input : Bytes) (r : Recv) → recv env input r ≡ recv_case env (round env input r)
recv_step env input r =
    unfold recv in
    recv_loop_step env (length input) input r
    ∙ case_recv env (length input) (length input) (round env input r) (round-Shorter env input r)
        (omega arith)
