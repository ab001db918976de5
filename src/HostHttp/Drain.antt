-- ===== src/HostHttp/Drain.antt =====
-- A reader that reads a body of host_http.go to its end.
use qoder_cpa.Prelude.{
  ℕ, zero, suc, ◌<◌, true, not, ◌||◌, List, [], ◌∷◌, ◌++◌, Option, none, some, Text, text_eq, ◌==◌,
  length, length-append, All, ◌≡◌, sym, ap, ap₂, ◌∙◌, arith,
}
use qoder_cpa.HostHttp.{Body, Out, bytes, eof, failed, read}
use qoder_cpa.HostHttp.Reads.{End, ends, breaks, content, nat_zero, IsRead, read-IsRead}

abbrev on_read : (Body → Text × Option End) → Out × Body → Text × Option End
on_read later (bytes s, b) = (s ++ (later b).0, (later b).1)
on_read later (eof, b) = ([], some ends)
on_read later (failed text, b) = ([], some breaks)

-- Reads into slices of the given sizes, until the stream has ended; `none` where it has not.
unfoldable pub drain : List ℕ → Body → Text × Option End
drain [] b = ([], none)
drain (n ∷ ns) b = on_read (drain ns) (read n b)

some_bytes : (n : ℕ) (s : Text) → 0 < n → (nat_zero n || not (s == [])) ≡ true → 0 < length s
some_bytes zero s h e = absurd (omega arith)
some_bytes (suc n) [] h e = cc
some_bytes (suc n) (c ∷ s) h e = omega arith

-- What is given in the end.
abbrev IsAll : Text × End → Text × Option End → Type 0
IsAll before given = (given.0 ≡ before.0) × (given.1 ≡ some before.1)

on_read-IsAll :
    (n k : ℕ) (later : Body → Text × Option End) (before : Text × End) (o : Out × Body)
    → 0 < n
    → length before.0 < suc k
    → IsRead n before o
    → ((b : Body) → length (content b).0 < k → IsAll (content b) (later b))
    → IsAll before (on_read later o)
on_read-IsAll n k later before (eof, b) positive long r rest = (sym r.0, ap some (sym r.1))
on_read-IsAll n k later before (failed text, b) positive long r rest = (sym r.0, ap some (sym r.1))
on_read-IsAll n k later before (bytes s, b) positive long r rest =
    let shorter : length (content b).0 < k = omega (
      arith,
      some_bytes n s positive r.2,
      ap (λ (t : Text). length t) r.0,
      length-append s (content b).0,
    ) in
    let given = rest b shorter in
    (ap (λ (t : Text). s ++ t) given.0 ∙ sym r.0, given.1 ∙ ap some (sym r.1))

drain-IsAll :
    (ns : List ℕ) (b : Body)
    → All (λ n. 0 < n) ns
    → length (content b).0 < length ns
    → IsAll (content b) (drain ns b)
unfolding drain
drain-IsAll [] b h long = absurd (omega arith)
drain-IsAll (n ∷ ns) b h long =
    on_read-IsAll n (length ns) (drain ns) (content b) (read n b) h.0 long (read-IsRead n b)
      λ b' shorter. drain-IsAll ns b' h.1 shorter

-- A reader that always has room reaches the end after at most one read more than there are bytes, and
-- has then been given all that the host sent, in order; it is told an error exactly where the stream of
-- the host breaks off.
pub drain-content :
    (ns : List ℕ) (b : Body)
    → All (λ n. 0 < n) ns
    → length (content b).0 < length ns
    → drain ns b ≡ ((content b).0, some (content b).1)
drain-content ns b h long =
    let r = drain-IsAll ns b h long in ap₂ (λ (s : Text) (e : Option End). (s, e)) r.0 r.1
