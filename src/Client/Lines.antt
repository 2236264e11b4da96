-- ===== src/Client/Lines.antt =====
-- `splitLines` of client.go, against the output for given lines.
use gotmucks.Base.{
  ℕ, Bool, true, false, List, [], ◌∷◌, ◌++◌, ◌≡◌, refl, sym, ap, ◌∙◌, arith, Bytes, All, All-append,
  Lacks, bytes_eq, append-nil, map,
}
use gotmucks.Strings.{split, split-append, split_none, trim_suffix}
use gotmucks.Client.{without_return, without_returns, split_lines}

-- A line, and whether a carriage return ends it too.
abbrev pub Ended : Type 0
Ended = Bytes × Bool

abbrev ending : Bool → Bytes
ending true = 13 ∷ []
ending false = []

abbrev body : Ended → Bytes
body (l, crlf) = l ++ ending crlf

-- The output of these lines.
abbrev pub written : List Ended → Bytes
written [] = []
written (e ∷ es) = body e ++ b'\n' ∷ written es

-- A line that holds no newline and ends with no carriage return of its own.
abbrev pub IsLine : Ended → Type 0
IsLine e = Lacks b'\n' e.0 × (without_return e.0 ≡ e.0)

longer : (xs ys : Bytes) (x y b : ℕ) → bytes_eq (x ∷ (xs ++ y ∷ ys)) (b ∷ []) ≡ false
unfolding bytes_eq
longer [] ys x y b = ground arith
longer (z ∷ xs) ys x y b = ground arith

-- Only the last byte is looked at.
trim-skip :
    (b : ℕ) (xs : Bytes) (y : ℕ) (ys : Bytes)
    → trim_suffix (b ∷ []) (xs ++ y ∷ ys) ≡ xs ++ trim_suffix (b ∷ []) (y ∷ ys)
unfolding trim_suffix
trim-skip b [] y ys = refl
trim-skip b (x ∷ xs) y ys = rw (longer xs ys x y b) (ap (◌∷◌ x) (trim-skip b xs y ys))

trim-newline :
    (xs : Bytes) (e : Ended) (es : List Ended)
    → trim_suffix (b'\n' ∷ []) (xs ++ b'\n' ∷ written (e ∷ es))
      ≡ xs ++ b'\n' ∷ trim_suffix (b'\n' ∷ []) (written (e ∷ es))
trim-newline xs e es =
    trim-skip b'\n' xs b'\n' (written (e ∷ es))
    ∙ ap (λ t. xs ++ t)
        (trim-skip b'\n' (b'\n' ∷ body e) b'\n' (written es)
          ∙ ap (◌∷◌ b'\n') (sym (trim-skip b'\n' (body e) b'\n' (written es))))

trim-return_newline : (ys : Bytes) → without_return (b'\n' ∷ ys) ≡ b'\n' ∷ without_return ys
unfolding trim_suffix bytes_eq
trim-return_newline [] = refl
trim-return_newline (y ∷ ys) = refl

trim-return : (xs ys : Bytes) → without_return (xs ++ b'\n' ∷ ys) ≡ xs ++ b'\n' ∷ without_return ys
trim-return xs ys = trim-skip 13 xs b'\n' ys ∙ ap (λ t. xs ++ t) (trim-return_newline ys)

one_return : without_return (13 ∷ []) ≡ []
unfolding trim_suffix bytes_eq
one_return = refl

one_newline : trim_suffix (b'\n' ∷ []) (b'\n' ∷ []) ≡ []
unfolding trim_suffix bytes_eq
one_newline = refl

trim-body : (l : Bytes) (crlf : Bool) → without_return l ≡ l → without_return (l ++ ending crlf) ≡ l
trim-body l true h = trim-skip 13 l 13 [] ∙ ap (λ t. l ++ t) one_return ∙ append-nil l
trim-body l false h = ap without_return (append-nil l) ∙ h

Lacks-body : (e : Ended) → Lacks b'\n' e.0 → Lacks b'\n' (body e)
Lacks-body (l, true) h = All-append _ l (13 ∷ []) h (omega arith)
Lacks-body (l, false) h = All-append _ l [] h tt

abbrev parts : Bytes → List Bytes
parts s = without_returns (split b'\n' (without_return (trim_suffix (b'\n' ∷ []) s)))

parts-one : (e : Ended) → IsLine e → parts (written (e ∷ [])) ≡ e.0 ∷ []
unfolding without_returns
parts-one (l, crlf) h =
    let one =
      trim-skip b'\n' (l ++ ending crlf) b'\n' []
      ∙ ap (λ t. (l ++ ending crlf) ++ t) one_newline
      ∙ append-nil (l ++ ending crlf) in
    rw (one, trim-body l crlf h.1, split_none b'\n' l h.0, h.1) refl

parts-written :
    (e : Ended) (es : List Ended)
    → All IsLine (e ∷ es)
    → parts (written (e ∷ es)) ≡ map (λ x. x.0) (e ∷ es)
unfolding without_returns
parts-written e [] h = parts-one e h.0
parts-written (l, crlf) (e ∷ es) h =
    let xs = l ++ ending crlf in
    rw
      (
        trim-newline xs e es,
        trim-return xs,
        split-append b'\n' xs _ (Lacks-body (l, crlf) h.0.0),
        trim-body l crlf h.0.1,
      )
      (ap (◌∷◌ l) (parts-written e es h.1))

split_lines-parts :
    (xs : Bytes) (y : ℕ) (ys : Bytes) → split_lines (xs ++ y ∷ ys) ≡ parts (xs ++ y ∷ ys)
unfolding split_lines
split_lines-parts [] y ys = refl
split_lines-parts (x ∷ xs) y ys = refl

-- Lines that hold no newline and end with no carriage return of their own are the lines found in
-- the output that ends each with a newline or with a carriage return and a newline; blank lines are
-- kept, and no output is no lines.
pub split_lines-written :
    (es : List Ended) → All IsLine es → split_lines (written es) ≡ map (λ x. x.0) es
split_lines-written [] h = unfold split_lines in refl
split_lines-written (e ∷ es) h =
    split_lines-parts (body e) b'\n' (written es) ∙ parts-written e es h
