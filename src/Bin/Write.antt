-- ===== src/Bin/Write.antt =====
-- to_bin.hpp: the overloads of `to_bin`, to any stream.
use clarion.Prelude.{List, [], ◌∷◌, length, none, some, inl, inr}
use clarion.Stream.{Result, ok, ◌>>=◌}
use clarion.Stream.Sink.{Sink}
use clarion.Stream.Memory.{le_bytes, block}
use clarion.Varint.Write.{varuint32_to_bin}
use clarion.Bin.Types.{Ty, Tys, El, Els, Alt, index}
use clarion.Bin.Types.{scalar, text, pod_vec, pod_arr, vec, opt, arr, tuple, variant, nil, cons}

-- `for (auto& x : obj) { to_bin(x, stream); }`
unfoldable pub each {ℓ} : {A : Type ℓ} {S : Type 0} → (A → S → Result S) → List A → S → Result S
each f [] s = ok s
each f (x ∷ xs) s = f x s >>= each f xs

module _ {S : Type 0} (k : Sink S) where
  unfoldable mutual
    pub to_bin : (t : Ty) → El t → S → Result S
    to_bin (scalar n) v s = k.write (le_bytes n v) s
    to_bin text v s = varuint32_to_bin k (length v) s >>= k.write v
    to_bin (pod_vec n) v s = varuint32_to_bin k (length v) s >>= k.write (block n v)
    to_bin (pod_arr count n) v s = varuint32_to_bin k count s >>= k.write (block n v)
    to_bin (vec t) v s = varuint32_to_bin k (length v) s >>= each (to_bin t) v
    to_bin (opt t) none s = k.write (0 ∷ []) s
    to_bin (opt t) (some v) s = k.write (1 ∷ []) s >>= to_bin t v
    to_bin (arr count t) v s = each (to_bin t) v s
    to_bin (tuple ts) v s = to_bin_tuple ts v s
    to_bin (variant ts) v s = varuint32_to_bin k (index ts v) s >>= visit ts v

    -- `to_bin_tuple<0>`, and `reflect<T>::for_each` over the data members of a struct.
    pub to_bin_tuple : (ts : Tys) → Els ts → S → Result S
    to_bin_tuple nil v s = ok s
    to_bin_tuple (cons t ts) v s = to_bin t v.0 s >>= to_bin_tuple ts v.1

    -- `std::visit` of the alternative that the variant holds.
    pub visit : (ts : Tys) → Alt ts → S → Result S
    visit nil v s = absurd v
    visit (cons t ts) (inl v) s = to_bin t v s
    visit (cons t ts) (inr v) s = visit ts v s
