-- ===== src/Config.antt =====
-- KubernetesAutoConfig of pkg/config/config.go: the other replicas of a node. What the cluster reports,
-- the namespace, the pods and the services, and strconv.Itoa are arguments, and a call that fails ends the
-- program.
use sybline.Base.{
  ℕ, zero, suc, ◌^◌, String, Option, none, some, List, [], ◌∷◌, length, set, ltb, ◌==◌,
  if◌then◌else◌, last_of,
}
use Prim.Native.String
use sybline.Base.Text.{split}
use sybline.Base.Search.{parse_uint}
use sybline.Core.Run.{Run, ok, panic, ◌>>=◌}

-- The number behind the last hyphen, up to 64 bits.
unfoldable pub extract_number : String → Option ℕ
extract_number s = elim (split "-" s) [
  | [] ↦ none
  | part ∷ parts ↦ parse_uint (2 ^ 64) (last_of part parts)
]

module _ (itoa : ℕ → String) (namespace : String) (port : ℕ) where
  unfoldable pub address : (service : String) → String
  address service =
      String.◌++◌ service
        (String.◌++◌ "." (String.◌++◌ namespace (String.◌++◌ ".svc.cluster.local:" (itoa port))))

  -- The loop over the services: `i` is the index of the first of them, `k` the next free place. A place
  -- behind the end of the two slices panics.
  unfoldable pub place :
      (services : List String)
      → (i k pod : ℕ) → (addresses ids : List String) → Run (List String × List String)
  place [] i k pod addresses ids = ok (addresses, ids)
  place (service ∷ services) i k pod addresses ids =
      let skip = place services (suc i) k pod addresses ids in
      let put =
        place services (suc i) (suc k) pod (set addresses k (address service))
          (set ids k (itoa i)) in
      if i == pod then skip else if ltb k (length addresses) then put else panic

abbrev pub blanks : ℕ → List String
blanks zero = []
blanks (suc n) = "" ∷ blanks n

-- One turn of the outer loop: `none` waits for the pods and tries again. `fatal` is log.Fatal.
pub data Turn : Type 0 where
  wait fatal : Turn
  found : (addresses ids : List String) → (id : ℕ) → Turn

unfoldable pub look :
    (itoa : ℕ → String)
    → (namespace host : String) → (port replica_count pods : ℕ) → (services : List String)
    → Run Turn
-- `make` with a negative length panics
look itoa namespace host port zero pods services = panic
look itoa namespace host port (suc others) pods services =
    if pods == suc others
    then elim (extract_number host) [
      | none ↦ ok fatal
      | some pod ↦ do
        r ← place itoa namespace port services 0 0 pod (blanks others) (blanks others)
        ok (found r.0 r.1 pod)
    ]
    else ok wait
