-- ===== src/Locking/Exclusion.antt =====
-- Which calls of locking/locknode.go keep each other out.
use fcr.Base.{
  ◌++◌, List, Bool, [], false, ◌∷◌, ◌&&◌, ◌||◌, String, ◌≡◌, refl, arith, text_key, true,
  Option-cases, inl, inr, ◌∙◌, ◌==◌, some,
}
use fcr.Locking.{LockNode, LockNodes, node, Held, r_lock, find_child, below, lock}
use fcr.Mdlstore.{list_eq}

-- Whether a held node keeps out one of the others: the same node, and one of the two for writing.
abbrev clashes : Held → List Held → Bool
clashes h [] = false
clashes h (k ∷ ks) = list_eq h.0 k.0 && (h.1 || k.1) || clashes h ks

-- Whether two calls cannot both hold what they ask for.
abbrev pub conflict : List Held → List Held → Bool
conflict [] ks = false
conflict (h ∷ hs) ks = clashes h ks || conflict hs ks

clashes-below :
    (key : String) (path : List String) (w : Bool) (ks : List Held)
    → clashes (key ∷ path, w) (below key ks) ≡ clashes (path, w) ks
unfolding below
clashes-below key path w [] = refl
clashes-below key path w ((q, v) ∷ ks) =
    ground (arith, text_key.beq_iff key key, clashes-below key path w ks)

conflict-below :
    (key : String) (hs ks : List Held) → conflict (below key hs) (below key ks) ≡ conflict hs ks
unfolding below
conflict-below key [] ks = refl
conflict-below key ((path, w) ∷ hs) ks = rw (clashes-below key path w ks, conflict-below key hs ks)

conflict-cons_right :
    (hs : List Held) (k : Held) (ks : List Held)
    → conflict hs ks ≡ true
    → conflict hs (k ∷ ks) ≡ true
conflict-cons_right [] k ks e = absurd (ground arith)
conflict-cons_right (h ∷ hs) k ks e = ground (arith, conflict-cons_right hs k ks)

conflict-cons :
    (h k : Held) (hs ks : List Held) → conflict hs ks ≡ true → conflict (h ∷ hs) (k ∷ ks) ≡ true
conflict-cons h k hs ks e = ground (arith, conflict-cons_right hs k ks e)

-- Every call holds the node it starts at.
r_lock-root :
    (path : List String) (n : LockNode) → (hs : List Held) × (r_lock path n ≡ ([], false) ∷ hs)
unfolding r_lock
r_lock-root [] n = ([], refl)
r_lock-root (key ∷ path) (node cs) = elim (Option-cases (find_child key cs)) [
  | inl e ↦ ([], rw (r_lock, e))
  | inr (c, e) ↦ (below key (r_lock path c), rw (r_lock, e))
]

lock-root :
    (path : List String) (n : LockNode)
    → (w : Bool) × (hs : List Held) × (lock path n ≡ ([], w) ∷ hs)
unfolding lock
lock-root [] n = (true, [], refl)
lock-root (key ∷ path) (node cs) = elim (Option-cases (find_child key cs)) [
  | inl e ↦ (true, [], rw (lock, e))
  | inr (c, e) ↦ (false, below key (lock path c), rw (lock, e))
]

writer_excludes :
    (path rest : List String) (n : LockNode)
    → lock path n ≡ ([], true) ∷ []
    → (conflict (lock path n) (r_lock rest n) ≡ true)
      × (conflict (lock path n) (lock rest n) ≡ true)
writer_excludes path rest n e =
    let (hs, r) = r_lock-root rest n in
    let (w, ks, l) = lock-root rest n in (rw (e, r) refl, rw (e, l) refl)

-- A call of Lock keeps out every call of RLock or Lock for its node or one below it, whether the nodes on
-- their paths are in the tree or not.
pub lock_excludes :
    (path rest : List String) (n : LockNode)
    → (conflict (lock path n) (r_lock (path ++ rest) n) ≡ true)
      × (conflict (lock path n) (lock (path ++ rest) n) ≡ true)
unfolding lock r_lock
lock_excludes [] rest n = writer_excludes [] rest n refl
lock_excludes (key ∷ path) rest (node cs) = elim (Option-cases (find_child key cs)) [
  | inl e ↦ writer_excludes (key ∷ path) (key ∷ path ++ rest) (node cs) (rw (lock, e))
  | inr (c, e) ↦
      let (f, g) = lock_excludes path rest c in
      (
        rw (lock, r_lock, e)
            (conflict-cons ([], false) ([], false) (below key (lock path c))
              (below key (r_lock (path ++ rest) c))
              (conflict-below key (lock path c) (r_lock (path ++ rest) c) ∙ f)),
        rw (lock, e)
            (conflict-cons ([], false) ([], false) (below key (lock path c))
              (below key (lock (path ++ rest) c))
              (conflict-below key (lock path c) (lock (path ++ rest) c) ∙ g)),
      )
]

clashes-apart :
    (k j : String) (path : List String) (w : Bool) (hs : List Held)
    → k == j ≡ false
    → clashes (k ∷ path, w) (([], false) ∷ below j hs) ≡ false
unfolding below
clashes-apart k j path w [] ne = refl
clashes-apart k j path w ((q, v) ∷ hs) ne = ground (arith, clashes-apart k j path w hs ne)

root_free : (j : String) (hs : List Held) → clashes ([], false) (below j hs) ≡ false
unfolding below
root_free j [] = refl
root_free j ((q, v) ∷ hs) = ground (arith, root_free j hs)

conflict-apart :
    (k j : String) (hs ks : List Held)
    → k == j ≡ false
    → conflict (below k hs) (([], false) ∷ below j ks) ≡ false
unfolding below
conflict-apart k j [] ks ne = refl
conflict-apart k j ((path, w) ∷ hs) ks ne =
    ground (arith, clashes-apart k j path w ks ne, conflict-apart k j hs ks ne)

-- Calls of Lock below two different children that are in the tree do not keep each other out.
locks_apart :
    (k j : String) (path other : List String) (cs : LockNodes) {a b : LockNode}
    → k == j ≡ false
    → find_child k cs ≡ some a
    → find_child j cs ≡ some b
    → conflict (lock (k ∷ path) (node cs)) (lock (j ∷ other) (node cs)) ≡ false
unfolding lock
locks_apart k j path other cs {a} {b} ne f g =
    rw (lock, f, g)
      (ground
        (arith, root_free j (lock other b), conflict-apart k j (lock path a) (lock other b) ne))
