-- ===== src/Queue/Laws.antt =====
-- What the queue relies on of its list backend: the lists behave as Redis documents LPUSH, BLMOVE
-- and LREM.
use api_example.Prelude.{◌≡◌, ◌≢◌, List, [], ◌∷◌, ◌++◌, if◌then◌else◌}
use api_example.Text.{Text, text_eq}
use api_example.Errors.{Error}
use api_example.Exec.{ok, err}
use api_example.Queue.{ListBackend}

-- LREM key 1 payload: the first occurrence is taken out.
unfoldable pub remove_first : Text → List Text → List Text
remove_first p [] = []
remove_first p (q ∷ qs) = if text_eq q p then qs else q ∷ remove_first p qs

-- The lists by their keys, and what each call does to them: it works, or fails and changes none. The
-- second is said of every failure. It is so where Redis refuses a command or is not reached; a client
-- that also loses the answer to a command that was done is not such a store.
pub record IsListStore {W : Type 0} (b : ListBackend W) (lists : W → Text → List Text)
    : Type 0 where
  pub pushed :
      (key payload : Text) (w w' : W)
      → b.push key payload w ≡ (ok tt, w')
      → lists w' key ≡ payload ∷ lists w key
  pub push_elsewhere :
      (key payload other : Text) (w w' : W)
      → b.push key payload w ≡ (ok tt, w')
      → other ≢ key
      → lists w' other ≡ lists w other
  pub push_failed :
      (key payload other : Text) (w w' : W) (e : Error)
      → b.push key payload w ≡ (err e, w')
      → lists w' other ≡ lists w other
  pub moved :
      (source destination payload : Text) (w w' : W)
      → b.move source destination w ≡ (ok payload, w')
      → source ≢ destination
      → (lists w source ≡ lists w' source ++ payload ∷ [])
        × (lists w' destination ≡ payload ∷ lists w destination)
  pub move_elsewhere :
      (source destination other payload : Text) (w w' : W)
      → b.move source destination w ≡ (ok payload, w')
      → other ≢ source
      → other ≢ destination
      → lists w' other ≡ lists w other
  pub move_failed :
      (source destination other : Text) (w w' : W) (e : Error)
      → b.move source destination w ≡ (err e, w')
      → lists w' other ≡ lists w other
  pub removed :
      (key payload : Text) (w w' : W)
      → b.remove key payload w ≡ (ok tt, w')
      → lists w' key ≡ remove_first payload (lists w key)
  pub remove_elsewhere :
      (key payload other : Text) (w w' : W)
      → b.remove key payload w ≡ (ok tt, w')
      → other ≢ key
      → lists w' other ≡ lists w other
  pub remove_failed :
      (key payload other : Text) (w w' : W) (e : Error)
      → b.remove key payload w ≡ (err e, w')
      → lists w' other ≡ lists w other
