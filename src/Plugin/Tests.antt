-- ===== src/Plugin/Tests.antt =====
-- The plugin theorems at concrete answers.
use vagabond.Base.{◌≡◌, some, refl, ℕ}
use vagabond.Plugin.Failure.{classify_http, internal_error, Mark}

abbrev status : ℕ
status = 503

-- A 401 is marked, so that dispatch can renew the credential.
unauthorized-marked : (classify_http 401 0).mark ≡ some Mark.unauthorized
unfolding classify_http internal_error
unauthorized-marked = refl
