-- ===== src/Device/Walk/Effects.antt =====
-- adbsyncdb/walk.go: the caller's state and the summary after a walk.
use adb_broker.Prelude.{
  ℕ, ◌+◌, ◌≡◌, refl, ap, subst, Bool, Option, none, some, List, arith, Bytes, ok,
}
use adb_broker.Wire.Socket.{Socket}
use adb_broker.Wire.Session.{SyncConn, alive, send_path}
use adb_broker.Wire.Listing.{Dirent, sync_list}
use adb_broker.DevicePath.{AuthorizedPath}
use adb_broker.DevicePath.Volume.{Volume}
use adb_broker.Device.Walker.{FileRecord, Walk}
use adb_broker.Device.Walk.{walk_root}
use adb_broker.Device.Walk.Steps.{
  EntryStep, passed, gave, stopped, left_out, reported, Entries, before_any, delivered, WalkStep,
  looked, asked, listed, unlisted, turned_down, noticed, dropped, WalkSteps, stay, further,
}
use adb_broker.Device.Walk.Refines.{walk_root-Refined}
use adb_broker.Device.Walk.Delivery.{Delivered, IsConfined, Served-IsConfined}

module _ {S E : Type 0} (roots : List Bytes) (vol : Volume) (fn : S → FileRecord → S × Option E)
    (root : AuthorizedPath) (start : Walk S E) (first : SyncConn) (P : S → Type 0) where
  -- What every call on a confined record keeps.
  abbrev pub Survives : Type 0
  Survives =
      (s : S) (r : FileRecord) → IsConfined roots vol fn root start first r → P s → P (fn s r).0

  entry_keeps :
      (dir : AuthorizedPath) (d : Dirent) (v x : Walk S E)
      → Survives
      → Delivered roots vol fn root start first dir d
      → EntryStep roots vol fn root dir d v x
      → P v.user
      → P x.user
  entry_keeps dir d v x k from (passed _) h = h
  entry_keeps dir d v x k from (gave r s sv n q) h =
      subst P (ap (λ y. y.0) q)
        (k v.user r (Served-IsConfined roots vol fn root start first dir d r sv from) h)
  entry_keeps dir d v x k from (stopped r s e sv n q) h =
      subst P (ap (λ y. y.0) q)
        (k v.user r (Served-IsConfined roots vol fn root start first dir d r sv from) h)
  entry_keeps dir d v x k from (left_out _) h = h
  entry_keeps dir d v x k from (reported p code _) h = h

  listing_keeps :
      (dir : AuthorizedPath) (w v : Walk S E) (c : SyncConn) (s t u : Socket)
      → Survives
      → WalkSteps roots vol fn root start first w c
      → alive c ≡ ok s
      → send_path sync_list dir.path s ≡ (t, ok tt)
      → Entries roots vol fn root dir w t v u
      → P w.user
      → P v.user
  listing_keeps dir w v c s t u k g a p before_any h = h
  listing_keeps dir w v c s t u k g a p (delivered {v = x} {u = y} d es q step) h =
      entry_keeps dir d x v k
        (record {
          before = w;
          held = c;
          opened = s;
          sent = t;
          so_far = x;
          behind = y;
          ahead = u;
          came = g;
          is_open = a;
          requested = p;
          earlier = es;
          read = q;
        })
        step (listing_keeps dir w x c s t y k g a p es h)

  steps_keep :
      (w : Walk S E) (c : SyncConn)
      → Survives
      → WalkSteps roots vol fn root start first w c
      → P start.user
      → P w.user
  steps_keep w c k stay h = h
  steps_keep w c k (further {v = v} {c = b} g a) h = kept v w b c g a (steps_keep v b k g h)
    where
      kept :
          (v w : Walk S E) (b c : SyncConn)
          → WalkSteps roots vol fn root start first v b
          → WalkStep roots vol fn root v b w c
          → P v.user
          → P w.user
      kept v w b c g (looked p d) h = h
      kept v w b c g (asked q) h = h
      kept v w b c g (listed {s = s} {t = t} {u = u} dir r d o p es z) h =
          listing_keeps dir v w b s t u k g o p es h
      kept v w b c g (unlisted dir d n) h = h
      kept v w b c g (turned_down p st d q n z) h = h
      kept v w b c g (noticed p code d) h = h
      kept v w b c g dropped h = h

module _ {S E : Type 0} (roots : List Bytes) (vol : Volume) (fn : S → FileRecord → S × Option E)
    (root : AuthorizedPath) where
  -- A count of the calls that succeeded.
  abbrev pub Counts : (S → ℕ) → Type 0
  Counts count =
      ((s s' : S) (r : FileRecord) → fn s r ≡ (s', none) → count s' ≡ count s + 1)
      × ((s s' : S) (r : FileRecord) (e : E) → fn s r ≡ (s', some e) → count s' ≡ count s)

  -- The count and the files of the summary grow together.
  abbrev Together : (S → ℕ) → Walk S E → Walk S E → Type 0
  Together count u w = count w.user + u.summary.files ≡ count u.user + w.summary.files

  listing_count :
      (count : S → ℕ) (dir : AuthorizedPath) (u w v : Walk S E) (t s : Socket)
      → Counts count
      → Together count u w
      → Entries roots vol fn root dir w t v s
      → Together count u v
  listing_count count dir u w v t s k h before_any = h
  listing_count count dir u w v t s k h (delivered {v = x} {u = y} d es q step) =
      counted x v step (listing_count count dir u w x t y k h es)
    where
      counted :
          (x v : Walk S E)
          → EntryStep roots vol fn root dir d x v
          → Together count u x
          → Together count u v
      counted x v (passed _) h = h
      counted x v (gave r z sv n q) h = omega (arith, k.0 x.user z r q)
      counted x v (stopped r z e sv n q) h = omega (arith, k.1 x.user z r e q)
      counted x v (left_out _) h = h
      counted x v (reported p code _) h = h

  steps_count :
      (count : S → ℕ) (u w : Walk S E) (b d : SyncConn)
      → Counts count
      → WalkSteps roots vol fn root u b w d
      → Together count u w
  steps_count count u w b d k stay = refl
  steps_count count u w b d k (further {v = v} {c = c} g a) =
      counted v w c d a (steps_count count u v b c k g)
    where
      counted :
          (v w : Walk S E) (c d : SyncConn)
          → WalkStep roots vol fn root v c w d
          → Together count u v
          → Together count u w
      counted v w c d (looked p _) h = h
      counted v w c d (asked q) h = h
      counted v w c d (listed {s = s} {t = t} {u = l} dir r _ o p es z) h =
          listing_count count dir u v w t l k h es
      counted v w c d (unlisted dir _ n) h = h
      counted v w c d (turned_down p st z q n o) h = h
      counted v w c d (noticed p code _) h = h
      counted v w c d dropped h = h

module _ {S E : Type 0} (roots : List Bytes) (to_lower : Bytes → Bytes) (vol : Volume)
    (max_depth : ℕ) (fn : S → FileRecord → S × Option E)
    (cancelled : Walk S E → SyncConn → Bool) where
  -- Whatever the device answers, what the callback does with confined records only is all that a walk does to the
  -- caller's state: a property of the state is kept by the walk, if every call keeps it on the record of an
  -- entry that the device delivered in a listing of this walk, with a stat that has no error and is of a regular
  -- file on the pinned volume, at a path of the allowlist inside the listed root. The callback has not failed
  -- before.
  pub walk_root_confined :
      (P : S → Type 0) (root : AuthorizedPath) (w : Walk S E) (c : SyncConn)
      → w.caller_err ≡ none
      → Survives roots vol fn root w c P
      → P w.user
      → P (walk_root roots to_lower vol max_depth fn cancelled root w c).0.user
  walk_root_confined P root w c n k h =
      let end = walk_root roots to_lower vol max_depth fn cancelled root w c in
      steps_keep roots vol fn root w c P end.0 end.1 k
        (walk_root-Refined roots to_lower vol max_depth fn cancelled root w c n).0 h

  -- The files of the summary are the calls of the callback that succeeded, by any count of them that the
  -- caller's state keeps, also if the walk fails. The callback has not failed before.
  pub walk_root_files :
      (count : S → ℕ) (root : AuthorizedPath) (w : Walk S E) (c : SyncConn)
      → w.caller_err ≡ none
      → Counts roots vol fn root count
      → count (walk_root roots to_lower vol max_depth fn cancelled root w c).0.user
          + w.summary.files
        ≡ count w.user
          + (walk_root roots to_lower vol max_depth fn cancelled root w c).0.summary.files
  walk_root_files count root w c n k =
      let end = walk_root roots to_lower vol max_depth fn cancelled root w c in
      steps_count roots vol fn root count w end.0 c end.1 k
        (walk_root-Refined roots to_lower vol max_depth fn cancelled root w c n).0
