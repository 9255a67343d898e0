-- ===== src/Patches/Slices.antt =====
-- Laws of the slices of a text and of its length in characters.
use Prim.Native.Nat.{ℕ, zero, suc, ◌+◌, ◌≤◌}
use Prim.Native.String
use Prim.Native.String.append
use Prim.Native.String.count
use k8s_clue.Prelude.{String, ◌≡◌, refl, arith, sym, ap}
use k8s_clue.Patches.Text.{text_take, text_drop}

pub count-take :
    (n : ℕ) (text : String) → n ≤ String.count text → String.count (text_take n text) ≡ n
count-take zero text h = String.count.nil
count-take (suc n) String.[] h = ground (arith, String.count.nil)
count-take (suc n) (String.◌∷◌ c text) h =
    ground
      (arith, String.count.cons c text, String.count.cons c (text_take n text), count-take n text)

pub count-take-le : (n : ℕ) (text : String) → String.count (text_take n text) ≤ String.count text
count-take-le zero text = ground (arith, String.count.nil)
count-take-le (suc n) String.[] = ground arith
count-take-le (suc n) (String.◌∷◌ c text) =
    ground (
      arith,
      String.count.cons c text,
      String.count.cons c (text_take n text),
      count-take-le n text,
    )

pub take-take :
    (m n : ℕ) (text : String) → m ≤ n → text_take m (text_take n text) ≡ text_take m text
take-take zero n text h = refl
take-take (suc m) (suc n) String.[] h = refl
take-take (suc m) (suc n) (String.◌∷◌ c text) h =
    ap (String.◌∷◌ c) (take-take m n text (ground arith))
take-take (suc m) zero text h = ground arith

drop-nil : (n : ℕ) → text_drop n "" ≡ ""
drop-nil zero = refl
drop-nil (suc n) = refl

take-nil : (n : ℕ) → text_take n "" ≡ ""
take-nil zero = refl
take-nil (suc n) = refl

pub drop-drop :
    (m k n : ℕ) (text : String) → m + k ≡ n → text_drop k (text_drop m text) ≡ text_drop n text
drop-drop zero k n text h = ap (λ i. text_drop i text) (omega arith)
drop-drop (suc m) k (suc n) String.[] h = drop-nil k
drop-drop (suc m) k (suc n) (String.◌∷◌ c text) h = drop-drop m k n text (omega arith)
drop-drop (suc m) k zero text h = ground arith

pub drop-take :
    (m k n : ℕ) (text : String)
    → m + k ≡ n
    → text_drop m (text_take n text) ≡ text_take k (text_drop m text)
drop-take zero k n text h = ap (λ i. text_take i text) (omega arith)
drop-take (suc m) k (suc n) String.[] h = sym (take-nil k)
drop-take (suc m) k (suc n) (String.◌∷◌ c text) h = drop-take m k n text (omega arith)
drop-take (suc m) k zero text h = ground arith

pub take-append :
    (m : ℕ) (a b : String) → m ≤ String.count a → text_take m (String.◌++◌ a b) ≡ text_take m a
take-append zero a b h = refl
take-append (suc m) String.[] b h = ground (arith, String.count.nil)
take-append (suc m) (String.◌∷◌ c a) b h =
    rw (String.append.cons c a b)
      (ap (String.◌∷◌ c) (take-append m a b (ground (arith, String.count.cons c a))))

pub drop-append :
    (m : ℕ) (a b : String)
    → m ≤ String.count a
    → text_drop m (String.◌++◌ a b) ≡ String.◌++◌ (text_drop m a) b
drop-append zero a b h = refl
drop-append (suc m) String.[] b h = ground (arith, String.count.nil)
drop-append (suc m) (String.◌∷◌ c a) b h =
    rw (String.append.cons c a b) (drop-append m a b (ground (arith, String.count.cons c a)))
