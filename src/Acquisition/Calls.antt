-- ===== src/Acquisition/Calls.antt =====
-- acquisition.py: the calls of workers and of the controller on a store.
use my_ops.Prelude.{ℕ, String, Bool, List, [], ◌∷◌, if◌then◌else◌}
use my_ops.Store.{Db}
use my_ops.Acquisition.{FetchClaim, claim, transition_run, beat}
use my_ops.Acquisition.Seal.{Hashing, Package, commit_staged}

-- What a worker may ask for; a commit comes with the package that was read from the staging.
pub data FetchCall : Type 0 where
  claim_call : (bid sid worker : String) (lease now now' : ℕ) → FetchCall
  transition_call : FetchClaim → (target : String) (delay now now' : ℕ) → FetchCall
  beat_call : FetchClaim → (lease now now' : ℕ) → FetchCall
  commit_call : FetchClaim → Package → (now : ℕ) → FetchCall

-- A store that takes protected acquisition only refuses each of these calls.
unfoldable pub serve : Hashing → Bool → Db → FetchCall → Db
unfolding claim transition_run beat commit_staged
serve h protected db (claim_call bid sid worker lease now now') =
    (claim protected db bid sid worker lease now now').1
serve h protected db (transition_call c target delay now now') =
    (transition_run protected db c target delay now now').1
serve h protected db (beat_call c lease now now') = (beat protected db c lease now now').1
serve h protected db (commit_call c p now) =
    if protected then db else (commit_staged h db c p now).1

unfoldable pub serve_all : Hashing → Bool → Db → List FetchCall → Db
unfolding serve
serve_all h protected db [] = db
serve_all h protected db (c ∷ cs) = serve_all h protected (serve h protected db c) cs
