-- ===== src/Session/Wire.antt =====
-- What a Write of the connection puts on the wire, whether it succeeds or not.
use anytls_go.Common.{
  ℕ, ◌≡◌, refl, ap, ◌∙◌, Bytes, List, [], ◌∷◌, ◌++◌, Option, none, some, Bool, length, take, drop,
  Error, Result, ok, err, concat, concat-append, arith, append_assoc, append-nil, take-append-drop,
  if_elim, subst, net_closed,
}
use anytls_go.Session.Conn.{Conn, write_fn, raw_write, write, put, wait_write, wait_then}
use anytls_go.Session.Write.{waste_frame}

-- All that the peer gets, in order.
abbrev pub wire : Conn → Bytes
wire c = concat c.sent

abbrev pub wastes : List ℕ → Bytes
wastes [] = []
wastes (l ∷ ls) = waste_frame l ++ wastes ls

abbrev pub IsOk {ℓ} : {A : Type ℓ} → Result A → Type 0
IsOk (ok a) = Unit {0}
IsOk (err e) = ⊥

-- The wire grew by a prefix of p, and by all of it unless there was an error.
pub record Grows {ℓ} {A : Type ℓ} (w p : Bytes) (x : Conn × Result A) : Type 0 where
  pub rest : Bytes
  pub grown : wire x.0 ++ rest ≡ w ++ p
  pub complete : IsOk x.1 → rest ≡ []

wire-append : (c : Conn) (p : Bytes) → concat (c.sent ++ p ∷ []) ≡ wire c ++ p
wire-append c p = simp (concat-append, append-nil)

put-Grows : (o : Option ℕ) (p : Bytes) (c : Conn) → Grows (wire c) p (put o p c)
put-Grows none p c = record {
  rest = [];
  grown = append-nil _ ∙ wire-append c p;
  complete = λ h. refl;
}
put-Grows (some m) p c = record {
  rest = drop m p;
  grown =
      ap (λ x. x ++ drop m p) (wire-append c (take m p))
      ∙ append_assoc (wire c) (take m p) (drop m p)
      ∙ ap (λ x. wire c ++ x) (take-append-drop m p);
  complete = λ h. absurd h;
}

pub none-Grows {ℓ} :
    {A : Type ℓ} (p : Bytes) (c : Conn) (e : Error) → Grows {A = A} (wire c) p (c, err e)
none-Grows p c e = record { rest = p; grown = refl; complete = λ h. absurd h }

raw_write-Grows : (p : Bytes) (c : Conn) → Grows (wire c) p (raw_write p c)
unfolding raw_write
raw_write-Grows p c =
    if_elim (Grows (wire c) p) c.closed _ _ (λ e. none-Grows p c net_closed)
      (λ e. put-Grows (c.fate c.writes) p c)

wire-wait : (n : ℕ) (c : Conn) → wire (wait_write n c).0 ≡ wire c
unfolding wait_write
wire-wait n c =
    if_elim {A = Conn × Result (Unit {0})} (λ x. wire x.0 ≡ wire c) (c.grants c.waits) _ _
      (λ e. refl) (λ e. refl)

wait_then-Grows :
    (p w : Bytes) (x : Conn × Result (Unit {0})) → wire x.0 ≡ w → Grows w p (wait_then p x)
wait_then-Grows p w (c, ok u) h = subst (λ v. Grows v p (raw_write p c)) h (raw_write-Grows p c)
wait_then-Grows p w (c, err e) h = subst (λ v. Grows {A = ℕ} v p (c, err e)) h (none-Grows p c e)

write-Grows : (p : Bytes) (c : Conn) → Grows (wire c) p (write p c)
unfolding write
write-Grows p c =
    if_elim (Grows (wire c) p) c.limited _ _
      (λ e. wait_then-Grows p (wire c) (wait_write (length p) c) (wire-wait (length p) c))
      (λ e. raw_write-Grows p c)

pub write_fn-Grows : (u : Bool) (p : Bytes) (c : Conn) → Grows (wire c) p (write_fn u p c)
unfolding write_fn
write_fn-Grows u p c =
    if_elim (Grows (wire c) p) u _ _
      (λ e.
        if_elim (Grows (wire c) p) c.limited _ _ (λ f. raw_write-Grows p c) (λ f. write-Grows p c))
      (λ e. write-Grows p c)

pub write_fn-counted :
    (u : Bool) (p : Bytes) (c : Conn) (n : ℕ) → (write_fn u p c).1 ≡ ok n → n ≡ length p
unfolding write_fn
write_fn-counted u p c n h = ground arith
