-- ===== src/Lru/Recent.antt =====
-- How long a binding stays in the list that lruMap stands for, while other keys are read and written.
use qoder_cpa.Prelude.{
  ℕ, suc, ◌≤◌, ◌<◌, false, [], ◌∷◌, ◌++◌, append_assoc, append-nil, none, some, Text, text_eq, ◌==◌,
  eq_self, leb, if◌then◌else◌, length, drop, length-append, lookup, delete, lookup-append,
  lookup-delete, ◌≡◌, refl, sym, ap, subst, ◌∙◌, arith, inl, inr, Bool-cases, Option-cases,
}
use qoder_cpa.Lru.Spec
use qoder_cpa.Lru.Spec.{Entries}
use qoder_cpa.Lru.Holds.{lookup-drop_absent}

-- The key is bound to the value, and at most `n` bindings are newer.
pub record IsRecent (key v : Text) (n : ℕ) (es : Entries) : Type 0 where
  pub front : Entries
  pub back : Entries
  pub split : es ≡ front ++ (key, v) ∷ back
  pub absent : lookup key front ≡ none
  pub few : length back ≤ n

delete-append : (k : Text) (a b : Entries) → delete k (a ++ b) ≡ delete k a ++ delete k b
unfolding delete
delete-append k [] b = refl
delete-append k ((j, w) ∷ a) b = ground (arith, delete-append k a b)

length-delete_le : (k : Text) (m : Entries) → length (delete k m) ≤ length m
unfolding delete
length-delete_le k [] = omega arith
length-delete_le k ((j, w) ∷ m) = ground (arith, length-delete_le k m)

module _ (key v : Text) where
  pub recent_lookup : (n : ℕ) (es : Entries) → IsRecent key v n es → lookup key es ≡ some v
  unfolding lookup
  recent_lookup n es r =
      rw (r.split)
        (ground (arith, eq_self key, r.absent, lookup-append key r.front ((key, v) ∷ r.back)))

  pub IsRecent-later : (n : ℕ) (es : Entries) → IsRecent key v n es → IsRecent key v (suc n) es
  IsRecent-later n es r = record {
    front = r.front;
    back = r.back;
    split = r.split;
    absent = r.absent;
    few = omega (arith, r.few);
  }

  IsRecent-append :
      (n : ℕ) (es : Entries) (k w : Text)
      → IsRecent key v n es
      → IsRecent key v (suc n) (es ++ (k, w) ∷ [])
  IsRecent-append n es k w r = record {
    front = r.front;
    back = r.back ++ (k, w) ∷ [];
    split =
        ap (λ (x : Entries). x ++ (k, w) ∷ []) r.split
        ∙ append_assoc r.front ((key, v) ∷ r.back) ((k, w) ∷ []);
    absent = r.absent;
    few = omega (arith, r.few, length-append r.back ((k, w) ∷ []));
  }

  IsRecent-delete :
      (n : ℕ) (es : Entries) (k : Text)
      → (key == k) ≡ false
      → IsRecent key v n es
      → IsRecent key v n (delete k es)
  unfolding delete
  IsRecent-delete n es k other r = record {
    front = delete k r.front;
    back = delete k r.back;
    split =
        ap (delete k) r.split
        ∙ delete-append k r.front ((key, v) ∷ r.back)
        ∙ ap (λ (x : Entries). delete k r.front ++ x) (rw other refl);
    absent = ground (arith, lookup-delete k key r.front, r.absent);
    few = omega (arith, r.few, length-delete_le k r.back);
  }

  -- The oldest binding is another one while fewer are newer than the map may hold.
  IsRecent-drop :
      (n cap : ℕ) (es : Entries)
      → suc n < cap
      → cap ≤ length es
      → IsRecent key v n es
      → IsRecent key v n (drop 1 es)
  IsRecent-drop n cap es room full r = oldest r.front r.split r.absent
    where
      oldest :
          (front : Entries)
          → es ≡ front ++ (key, v) ∷ r.back
          → lookup key front ≡ none
          → IsRecent key v n (drop 1 es)
      oldest [] split absent = absurd (omega (arith, ap (λ (x : Entries). length x) split, r.few))
      oldest (e ∷ front) split absent = record {
        front = front;
        back = r.back;
        split = ap (drop 1) split;
        absent = lookup-drop_absent key (e ∷ front) absent;
        few = r.few;
      }

  fresh-set :
      (n cap : ℕ) (es : Entries) (k w : Text)
      → suc n < cap
      → lookup k es ≡ none
      → IsRecent key v n es
      → IsRecent key v (suc n) (Spec.set cap es k w)
  unfolding Spec.set
  fresh-set n cap es k w room missing r =
      rw (Spec.set, missing)
        (elim (Bool-cases (leb cap (length es))) [
          | inl full ↦
              rw full
                (IsRecent-append n (drop 1 es) k w (IsRecent-drop n cap es room (ground arith) r))
          | inr free ↦ rw free (IsRecent-append n es k w r)
        ])

  moved-set :
      (n cap : ℕ) (es : Entries) (k u w : Text)
      → (key == k) ≡ false
      → IsRecent key v n es
      → IsRecent key v (suc n) (Spec.set cap (delete k es ++ (k, u) ∷ []) k w)
  unfolding Spec.set lookup delete
  moved-set n cap es k u w other r =
      let moved : lookup k (delete k es ++ (k, u) ∷ []) ≡ some u =
        ground
          (arith, eq_self k, lookup-append k (delete k es) ((k, u) ∷ []), lookup-delete k k es) in
      let gone : delete k (delete k es ++ (k, u) ∷ []) ≡ delete k (delete k es) ++ [] =
        delete-append k (delete k es) ((k, u) ∷ []) ∙ rw (eq_self k) refl in
      rw (Spec.set, moved, gone, append-nil (delete k (delete k es)))
        (IsRecent-append n (delete k (delete k es)) k w
          (IsRecent-delete n (delete k es) k other (IsRecent-delete n es k other r)))

  -- After a read and a write of another key at most one binding more is newer.
  pub IsRecent-set :
      (n cap : ℕ) (es : Entries) (k w : Text)
      → (key == k) ≡ false
      → suc n < cap
      → IsRecent key v n es
      → IsRecent key v (suc n) (Spec.set cap (Spec.get es k).1 k w)
  unfolding Spec.get
  IsRecent-set n cap es k w other room r = elim (Option-cases (lookup k es)) [
    | inl missing ↦
        let same : (Spec.get es k).1 ≡ es = rw (Spec.get, missing) refl in
        subst (λ (g : Entries). IsRecent key v (suc n) (Spec.set cap g k w)) (sym same)
          (fresh-set n cap es k w room missing r)
    | inr (u, found) ↦
        let same : (Spec.get es k).1 ≡ delete k es ++ (k, u) ∷ [] = rw (Spec.get, found) refl in
        subst (λ (g : Entries). IsRecent key v (suc n) (Spec.set cap g k w)) (sym same)
          (moved-set n cap es k u w other r)
  ]

  -- What was just written is the newest.
  pub set-IsRecent : (cap : ℕ) (es : Entries) → IsRecent key v 0 (Spec.set cap es key v)
  unfolding Spec.set
  set-IsRecent cap es = elim (Option-cases (lookup key es)) [
    | inl missing ↦
        rw (Spec.set, missing)
          (newest (if leb cap (length es) then drop 1 es else es)
            (ground (arith, lookup-drop_absent key es missing)))
    | inr (u, found) ↦
        rw (Spec.set, found)
          (newest (delete key es) (ground (arith, eq_self key, lookup-delete key key es)))
  ]
    where
      newest :
          (front : Entries) → lookup key front ≡ none → IsRecent key v 0 (front ++ (key, v) ∷ [])
      newest front h = record {
        front = front;
        back = [];
        split = refl;
        absent = h;
        few = omega arith;
      }
