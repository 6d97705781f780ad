-- ===== src/Kinetic.antt =====
-- The status codes of the kinetic client library that the sources name
-- (src/Utility.cc, `toString`); any other code is `other_error`.
use kineticio.Prelude.{
  ℕ, zero, suc, ◌≡◌, refl, ap, sym, ◌∙◌, Bool, true, false, ◌||◌, ◌==◌, ==→eq, ==_refl,
}

pub data StatusCode : Type 0 where
  status_ok client_io_error client_shutdown client_internal_error : StatusCode
  client_response_hmac_verification_error remote_hmac_error remote_not_authorized : StatusCode
  remote_cluster_version_mismatch remote_not_found remote_version_mismatch : StatusCode
  other_error : ℕ → StatusCode

-- A numbering of the codes, by which they are compared.
abbrev pub tag : StatusCode → ℕ
tag status_ok = 0
tag client_io_error = 1
tag client_shutdown = 2
tag client_internal_error = 3
tag client_response_hmac_verification_error = 4
tag remote_hmac_error = 5
tag remote_not_authorized = 6
tag remote_cluster_version_mismatch = 7
tag remote_not_found = 8
tag remote_version_mismatch = 9
tag (other_error n) = suc (suc (suc (suc (suc (suc (suc (suc (suc (suc n)))))))))

untag : ℕ → StatusCode
untag zero = status_ok
untag (suc zero) = client_io_error
untag (suc (suc zero)) = client_shutdown
untag (suc (suc (suc zero))) = client_internal_error
untag (suc (suc (suc (suc zero)))) = client_response_hmac_verification_error
untag (suc (suc (suc (suc (suc zero))))) = remote_hmac_error
untag (suc (suc (suc (suc (suc (suc zero)))))) = remote_not_authorized
untag (suc (suc (suc (suc (suc (suc (suc zero))))))) = remote_cluster_version_mismatch
untag (suc (suc (suc (suc (suc (suc (suc (suc zero)))))))) = remote_not_found
untag (suc (suc (suc (suc (suc (suc (suc (suc (suc zero))))))))) = remote_version_mismatch
untag (suc (suc (suc (suc (suc (suc (suc (suc (suc (suc n)))))))))) = other_error n

untag-tag : (c : StatusCode) → untag (tag c) ≡ c
unfolding untag
untag-tag status_ok = refl
untag-tag client_io_error = refl
untag-tag client_shutdown = refl
untag-tag client_internal_error = refl
untag-tag client_response_hmac_verification_error = refl
untag-tag remote_hmac_error = refl
untag-tag remote_not_authorized = refl
untag-tag remote_cluster_version_mismatch = refl
untag-tag remote_not_found = refl
untag-tag remote_version_mismatch = refl
untag-tag (other_error n) = refl

-- `lhs == rhs`
unfoldable pub code_eq : StatusCode → StatusCode → Bool
code_eq a b = tag a == tag b

pub code_eq→eq : (a b : StatusCode) → code_eq a b ≡ true → a ≡ b
unfolding code_eq
code_eq→eq a b h = sym (untag-tag a) ∙ ap untag (==→eq (tag a) (tag b) h) ∙ untag-tag b

pub code_eq_refl : (a : StatusCode) → code_eq a a ≡ true
unfolding code_eq
code_eq_refl a = ==_refl (tag a)

-- `status.ok()`
abbrev pub is_ok : StatusCode → Bool
is_ok status_ok = true
is_ok _ = false

abbrev pub is_not_found : StatusCode → Bool
is_not_found remote_not_found = true
is_not_found _ = false

abbrev pub is_mismatch : StatusCode → Bool
is_mismatch remote_version_mismatch = true
is_mismatch _ = false

-- `validStatusCode`
unfoldable pub valid_status_code : StatusCode → Bool
valid_status_code c = is_ok c || is_not_found c || is_mismatch c

-- A code for OK is valid.
pub is_ok-valid_status_code : (c : StatusCode) → is_ok c ≡ true → valid_status_code c ≡ true
unfolding valid_status_code
is_ok-valid_status_code c h = rw h refl

-- A code for OK is this one.
pub is_ok→eq : (c : StatusCode) → is_ok c ≡ true → c ≡ status_ok
is_ok→eq status_ok h = refl
is_ok→eq client_io_error h = cc h
is_ok→eq client_shutdown h = cc h
is_ok→eq client_internal_error h = cc h
is_ok→eq client_response_hmac_verification_error h = cc h
is_ok→eq remote_hmac_error h = cc h
is_ok→eq remote_not_authorized h = cc h
is_ok→eq remote_cluster_version_mismatch h = cc h
is_ok→eq remote_not_found h = cc h
is_ok→eq remote_version_mismatch h = cc h
is_ok→eq (other_error n) h = cc h
