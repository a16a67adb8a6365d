-- ===== src/Auth/Password.antt =====
-- Which credentials the shared password accepts.
use anytls_go.Common.{
  ◌≡◌, ◌↔◌, refl, sym, subst, Bytes, Bool, true, false, not, length, ◌==◌, ==_refl, ◌=b◌, =b_refl,
  eq_of_=b, if◌then◌else◌,
}
use mathlib.Core.Bool.{false≢true}
use anytls_go.Auth.{hex, new_password_authenticator, check_password, rejected, Answer}

compared :
    (a b : Bool) (x : Answer)
    → (if not a then rejected else if not b then rejected else x).accepted ≡ true
    → b ≡ true
compared true true x h = refl
compared true false x h = absurd (false≢true h)
compared false b x h = absurd (false≢true h)

passed :
    (a b : Bool) (x : Answer)
    → a ≡ true
    → b ≡ true
    → x.accepted ≡ true
    → (if not a then rejected else if not b then rejected else x).accepted ≡ true
passed true true x h h' e = e
passed true false x h h' e = absurd (false≢true h')
passed false b x h h' e = absurd (false≢true h)

-- A credential is accepted exactly when it is the lower-case hexadecimal text of the password's
-- hash.
pub check_password-hex :
    (sha256 : Bytes → Bytes) (password blob : Bytes)
    → ((check_password (new_password_authenticator sha256 password) blob).accepted ≡ true)
      ↔ (blob ≡ hex (sha256 password))
unfolding check_password new_password_authenticator
check_password-hex sha256 password blob =
    let want = hex (sha256 password) in
    (
      λ h. eq_of_=b blob want (compared (length blob == length want) (blob =b want) _ h),
      λ e.
          subst
            (λ b. (check_password (new_password_authenticator sha256 password) b).accepted ≡ true)
            (sym e)
            (passed (length want == length want) (want =b want) _ (==_refl (length want))
              (=b_refl want) refl),
    )
