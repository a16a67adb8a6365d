-- ===== src/Auth/Agreement.antt =====
-- The caches do not change a decision: if the inner authenticator decides by the credential alone,
-- whenever it does not fail, then so does the caching one.
use anytls_go.Common.{
  ℕ, Bytes, List, [], ◌∷◌, Option, none, some, Bool, true, false, Error, ◌≡◌, refl, sym, ap, ◌∙◌,
  inl, inr, All,
}
use anytls_go.Lru.{Lru}
use anytls_go.Auth.{
  Answer, Authenticator, Caching, new_caching, add_bad, answered, check_bad, check_neg, check_id,
  authenticate,
}

-- An answer that is no failure is the decision: the id of an accepted client, none of a rejected.
abbrev pub decision : Bool → Bytes → Option Bytes
decision true id = some id
decision false id = none

abbrev pub Decided : Option Bytes → Option Error → Bool → Bytes → Type 0
Decided d (some e) accepted id = Unit {0}
Decided d none accepted id = decision accepted id ≡ d

abbrev pub IsDecided : Option Bytes → Answer → Type 0
IsDecided d a = Decided d a.failure a.accepted a.id

module _ {ℓ κ μ} {S : Type ℓ} {T : Type κ} {B : Type μ} (ids : Lru Bytes Bytes S)
    (bad : Lru Bytes (Unit {0}) T) (backend : Authenticator B) (truth : Bytes → Option Bytes)
    (decides : (addr blob : Bytes) (tx : ℕ) (b : B)
      → IsDecided (truth blob) (backend addr blob tx b).1) where
  abbrev pub IdsTrue : S → Type 0
  IdsTrue s = (blob id : Bytes) → ids.holds blob s ≡ some id → truth blob ≡ some id

  abbrev pub BadTrue : Option T → Type 0
  BadTrue none = Unit {0}
  BadTrue (some t) = (blob : Bytes) → bad.holds blob t ≡ some tt → truth blob ≡ none

  pub record IsTrue (c : Caching S T B) : Type 0 where
    pub ids_true : IdsTrue c.cache
    pub bad_true : BadTrue c.neg

  abbrev pub Good : Bytes → Caching S T B × Answer → Type 0
  Good blob r = IsTrue r.0 × IsDecided (truth blob) r.1

  add_bad-BadTrue :
      (blob : Bytes) (t : Option T)
      → truth blob ≡ none
      → BadTrue t
      → BadTrue (add_bad ids bad backend blob t)
  add_bad-BadTrue blob none h v = tt
  add_bad-BadTrue blob (some t) h v = λ other e. elim (bad.add_holds blob other tt tt t e) [
    | inl (same, u) ↦ ap truth same ∙ h
    | inr old ↦ v other old
  ]

  add-IdsTrue :
      (blob id : Bytes) (s : S) → truth blob ≡ some id → IdsTrue s → IdsTrue (ids.add blob id s)
  add-IdsTrue blob id s h v other x e = elim (ids.add_holds blob other id x s e) [
    | inl (same, value) ↦ ap truth same ∙ h ∙ sym (ap (λ y. some y) value)
    | inr old ↦ v other x old
  ]

  answered-Good :
      (blob : Bytes) (s : S) (t : Option T) (b : B) (id : Bytes) (accepted : Bool)
      (failure : Option Error)
      → IdsTrue s
      → BadTrue t
      → Decided (truth blob) failure accepted id
      → Good blob (
          answered ids bad backend blob s t
            (b, record { id = id; accepted = accepted; failure = failure }))
  answered-Good blob s t b id accepted (some e) i n d = (record { ids_true = i; bad_true = n }, tt)
  answered-Good blob s t b id true none i n d =
      (record { ids_true = add-IdsTrue blob id s (sym d) i; bad_true = n }, d)
  answered-Good blob s t b id false none i n d =
      (record { ids_true = i; bad_true = add_bad-BadTrue blob t (sym d) n }, d)

  ask-Good :
      (addr blob : Bytes) (tx : ℕ) (s : S) (t : Option T) (b : B)
      → IdsTrue s
      → BadTrue t
      → Good blob (answered ids bad backend blob s t (backend addr blob tx b))
  ask-Good addr blob tx s t b i n =
      let r = backend addr blob tx b in
      answered-Good blob s t r.0 r.1.id r.1.accepted r.1.failure i n (decides addr blob tx b)

  check_bad-Good :
      (addr blob : Bytes) (tx : ℕ) (s : S) (b : B) (t : T) (o : Option (Unit {0}))
      → IdsTrue s
      → BadTrue (some t)
      → (o ≡ some tt → truth blob ≡ none)
      → Good blob (check_bad ids bad backend addr blob tx s b (t, o))
  check_bad-Good addr blob tx s b t (some u) i n h =
      (record { ids_true = i; bad_true = n }, sym (h refl))
  check_bad-Good addr blob tx s b t none i n h = ask-Good addr blob tx s (some t) b i n

  check_neg-Good :
      (addr blob : Bytes) (tx : ℕ) (s : S) (t : Option T) (b : B)
      → IdsTrue s
      → BadTrue t
      → Good blob (check_neg ids bad backend addr blob tx s t b)
  check_neg-Good addr blob tx s none b i n = ask-Good addr blob tx s none b i n
  check_neg-Good addr blob tx s (some t) b i n =
      check_bad-Good addr blob tx s b (bad.get blob t).0 (bad.get blob t).1 i
        (λ other e. n other (bad.get_keeps blob other t tt e))
        (λ e. n blob (bad.get_holds blob t tt e))

  check_id-Good :
      (addr blob : Bytes) (tx : ℕ) (t : Option T) (b : B) (s : S) (o : Option Bytes)
      → IdsTrue s
      → BadTrue t
      → ((id : Bytes) → o ≡ some id → truth blob ≡ some id)
      → Good blob (check_id ids bad backend addr blob tx t b (s, o))
  check_id-Good addr blob tx t b s (some id) i n h =
      (record { ids_true = i; bad_true = n }, sym (h id refl))
  check_id-Good addr blob tx t b s none i n h = check_neg-Good addr blob tx s t b i n

  authenticate-Good :
      (addr blob : Bytes) (tx : ℕ) (c : Caching S T B)
      → IsTrue c
      → Good blob (authenticate ids bad backend addr blob tx c)
  unfolding authenticate
  authenticate-Good addr blob tx c v =
      check_id-Good addr blob tx c.neg c.inner (ids.get blob c.cache).0 (ids.get blob c.cache).1
        (λ other id e. v.ids_true other id (ids.get_keeps blob other c.cache id e)) v.bad_true
        (λ id e. v.ids_true blob id (ids.get_holds blob c.cache id e))

  -- The answers to calls made one after the other, each with its credential.
  abbrev pub Call : Type 0
  Call = Bytes × Bytes × ℕ

  unfoldable pub answers : List Call → Caching S T B → List (Bytes × Answer)
  answers [] c = []
  answers ((addr, blob, tx) ∷ calls) c =
      let r = authenticate ids bad backend addr blob tx c in (blob, r.1) ∷ answers calls r.0

  answers-IsTrue :
      (calls : List Call) (c : Caching S T B)
      → IsTrue c
      → All (λ x. IsDecided (truth x.0) x.1) (answers calls c)
  unfolding answers
  answers-IsTrue [] c v = tt
  answers-IsTrue ((addr, blob, tx) ∷ calls) c v =
      let g = authenticate-Good addr blob tx c v in
      (g.1, answers-IsTrue calls (authenticate ids bad backend addr blob tx c).0 g.0)

  fresh_bad : (neg_enabled : Bool) (b : B) → BadTrue (new_caching ids bad backend neg_enabled b).neg
  unfolding new_caching
  fresh_bad true b = λ blob e. let gone : none ≡ some tt = sym (bad.fresh_holds blob) ∙ e in cc
  fresh_bad false b = tt

  fresh_ids :
      (neg_enabled : Bool) (b : B) → IdsTrue (new_caching ids bad backend neg_enabled b).cache
  unfolding new_caching
  fresh_ids neg_enabled b =
      λ blob id e. let gone : none ≡ some id = sym (ids.fresh_holds blob) ∙ e in cc

  -- If the backend, whenever it does not fail, decides by the credential alone, then from fresh
  -- caches every answer to any sequence of calls that is no failure is that decision, whatever the
  -- caches evict and whether or not rejections are cached.
  pub answers-IsDecided :
      (calls : List Call) (neg_enabled : Bool) (b : B)
      → All
          (λ x. IsDecided (truth x.0) x.1)
          (answers calls (new_caching ids bad backend neg_enabled b))
  answers-IsDecided calls neg_enabled b =
      answers-IsTrue calls (new_caching ids bad backend neg_enabled b)
        (record { ids_true = fresh_ids neg_enabled b; bad_true = fresh_bad neg_enabled b })
