-- ===== src/Stats/Held.antt =====
-- The UserStat that an attached session holds, under the operations of the registry.
use anytls_go.Common.{
  ℕ, Bytes, List, [], ◌∷◌, Option, none, some, Bool, true, false, length, ◌==◌, ◌=b◌, if◌then◌else◌,
  if_elim, ◌≡◌, ◌≢◌, ◌⊎◌, refl, sym, ◌∙◌, subst, arith, Bool-cases, inl, inr, =b_refl, ==_refl,
  ==_iff,
}
use mathlib.Core.Bool.{false≢true}
use anytls_go.Common.Maps.{
  lookup, insert, delete, adjust, bytes_key, nat_key, lookup-insert, lookup-delete, lookup-adjust,
  map_some, =b_iff,
}
use anytls_go.Stats.{
  SessionInfo, UserStat, UserRef, Registry, user_or_new, joined, attach, add_tx, at_number, zeroed,
  cleared,
}
use anytls_go.Stats.Account.{Account, Lists, IsBalanced}

-- What the change of a UserStat keeps
pub keeps_listed :
    (sess n : ℕ) (f : UserStat → UserStat) (o : Option UserStat)
    → ((u : UserStat) → (f u).number ≡ u.number)
    → ((u : UserStat) → lookup sess u.sessions ≢ none → lookup sess (f u).sessions ≢ none)
    → Lists sess n o
    → Lists sess n (map_some f o)
keeps_listed sess n f none e g h = absurd h
keeps_listed sess n f (some u) e g h = (e u ∙ h.0, g u h.1)

pub adjust-Lists :
    (id at : Bytes) (sess n : ℕ) (f : UserStat → UserStat) (m : List (Bytes × UserStat))
    → ((u : UserStat) → (f u).number ≡ u.number)
    → ((u : UserStat) → lookup sess u.sessions ≢ none → lookup sess (f u).sessions ≢ none)
    → Lists sess n (lookup at m)
    → Lists sess n (lookup at (adjust id f m))
adjust-Lists id at sess n f m e g h = subst (Lists sess n) (sym (lookup-adjust id at f m)) (
    if_elim (Lists sess n) (id =b at) _ _ (λ d. keeps_listed sess n f (lookup at m) e g h) (λ d. h))

-- A user with a session stays at a Clear.
pub listed_live :
    (sess : ℕ) (m : List (ℕ × SessionInfo)) → lookup sess m ≢ none → (length m == 0) ≡ false
unfolding lookup
listed_live sess [] h = absurd (h refl)
listed_live sess (x ∷ m) h = ground arith

pub cleared-Lists :
    (id : Bytes) (sess n : ℕ) (m : List (Bytes × UserStat))
    → Lists sess n (lookup id m)
    → Lists sess n (lookup id (cleared m))
unfolding cleared lookup
cleared-Lists id sess n [] h = h
cleared-Lists id sess n ((at, u) ∷ m) h = elim (Bool-cases (at =b id)) [
  | inl e ↦
      let l : Lists sess n (some u) =
        subst (λ b. Lists sess n (if b then some u else lookup id m)) e h in
      rw (listed_live sess u.sessions l.1, e, if◌then◌else◌) l
  | inr e ↦
      let l : Lists sess n (lookup id m) =
        subst (λ b. Lists sess n (if b then some u else lookup id m)) e h in
      if_elim (λ x. Lists sess n (lookup id x)) (length u.sessions == 0) (cleared m)
        ((at, zeroed u) ∷ cleared m) (λ d. cleared-Lists id sess n m l)
        (λ d. rw (e, if◌then◌else◌) (cleared-Lists id sess n m l))
]

pub joined-Lists :
    (now : ℕ) (remote : Bytes) (sess other : ℕ) (u : UserStat)
    → ((sess == other) ≡ true) ⊎ (lookup other u.sessions ≢ none)
    → lookup other (joined now remote sess u).sessions ≢ none
joined-Lists now remote sess other u h e =
    let got : (if sess == other
          then some (record { remote = remote; started = now })
          else lookup other u.sessions)
        ≡ none =
      sym (lookup-insert sess other (record { remote = remote; started = now }) u.sessions) ∙ e in
    elim (Bool-cases (sess == other)) [
      | inl same ↦ some_none (
          subst
            (λ b.
              (if b
                then some (record { remote = remote; started = now })
                else lookup other u.sessions)
              ≡ none)
            same got)
      | inr differs ↦ elim h [
        | inl same ↦ absurd (false≢true (sym differs ∙ same))
        | inr there ↦ there (
            subst
              (λ b.
                (if b
                  then some (record { remote = remote; started = now })
                  else lookup other u.sessions)
                ≡ none)
              differs got)
      ]
    ]
  where
    some_none : {x : SessionInfo} {X : Type 0} → some x ≡ none → X
    some_none h = cc

pub attach-Lists :
    (now : ℕ) (id remote at : Bytes) (sess other n : ℕ) (r : Registry)
    → Lists other n (lookup at r.users)
    → Lists other n (lookup at (attach now id remote sess r).0.users)
unfolding attach
attach-Lists now id remote at sess other n r h =
    let u = joined now remote sess (user_or_new r.allocated (lookup id r.users)) in
    subst (Lists other n) (sym (lookup-insert id at u r.users)) (
      if_elim (Lists other n) (id =b at) _ _
        (λ e.
          stays (lookup id r.users)
            (subst (λ x. Lists other n (lookup x r.users)) (sym ((=b_iff id at).0 e)) h))
        (λ e. h))
  where
    stays :
        (o : Option UserStat)
        → Lists other n o
        → Lists other n (some (joined now remote sess (user_or_new r.allocated o)))
    stays none l = absurd l
    stays (some v) l = (l.0, joined-Lists now remote sess other v (inr l.1))

pub attach-Lists_new :
    (now : ℕ) (id remote : Bytes) (sess : ℕ) (r : Registry)
    → Lists sess
        (attach now id remote sess r).1.number
        (lookup (attach now id remote sess r).1.id (attach now id remote sess r).0.users)
unfolding attach
attach-Lists_new now id remote sess r =
    let u = user_or_new r.allocated (lookup id r.users) in
    subst (Lists sess u.number) (sym (lookup-insert id id (joined now remote sess u) r.users)) (
      rw (=b_refl id, if◌then◌else◌)
        (refl, joined-Lists now remote sess sess u (inl (==_refl sess))))

pub attach-listed :
    (now : ℕ) (id remote : Bytes) (sess : ℕ) (who : Bytes) (a : Account)
    → IsBalanced who a
    → (other : ℕ) (p : UserRef)
    → lookup other (insert sess (attach now id remote sess a.registry).1 a.held) ≡ some p
    → Lists other p.number (lookup p.id (attach now id remote sess a.registry).0.users)
attach-listed now id remote sess who a v other p e =
    by_case (sess == other) refl
      (sym (lookup-insert sess other (attach now id remote sess a.registry).1 a.held) ∙ e)
  where
    by_case :
        (b : Bool)
        → (sess == other) ≡ b
        → (if b then some (attach now id remote sess a.registry).1 else lookup other a.held)
          ≡ some p
        → Lists other p.number (lookup p.id (attach now id remote sess a.registry).0.users)
    by_case true same got =
        let ref : (attach now id remote sess a.registry).1 ≡ p = cc in
        let session : sess ≡ other = (==_iff sess other).0 same in
        subst
          (λ (q : UserRef).
            Lists other q.number (lookup q.id (attach now id remote sess a.registry).0.users))
          ref
          (subst
            (λ s. Lists s (attach now id remote sess a.registry).1.number (
              lookup (attach now id remote sess a.registry).1.id
                (attach now id remote sess a.registry).0.users))
            session (attach-Lists_new now id remote sess a.registry))
    by_case false differs got =
        attach-Lists now id remote p.id sess other p.number a.registry (v.listed other p got)

-- The session that ended holds nothing.
pub other_held :
    (sess other : ℕ) (q : UserRef) (m : List (ℕ × UserRef))
    → lookup other (delete sess m) ≡ some q
    → ((sess == other) ≡ false) × (lookup other m ≡ some q)
other_held sess other q m e =
    let got : (if sess == other then none else lookup other m) ≡ some q =
      sym (lookup-delete sess other m) ∙ e in
    by_case (sess == other) got
  where
    by_case :
        (b : Bool)
        → (if b then none else lookup other m) ≡ some q
        → (b ≡ false) × (lookup other m ≡ some q)
    by_case true h = cc
    by_case false h = (refl, h)

pub same_number : (k n : ℕ) (u : UserStat) → (at_number k (add_tx n) u).number ≡ u.number
unfolding add_tx
same_number k n u =
    if_elim (λ (v : UserStat). v.number ≡ u.number) (u.number == k) _ _ (λ e. refl) (λ e. refl)

pub same_sessions :
    (k n other : ℕ) (u : UserStat)
    → lookup other u.sessions ≢ none
    → lookup other (at_number k (add_tx n) u).sessions ≢ none
unfolding add_tx
same_sessions k n other u h =
    if_elim (λ (v : UserStat). lookup other v.sessions ≢ none) (u.number == k) _ _ (λ e. h) (λ e. h)
