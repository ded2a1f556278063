-- ===== src/Bookmarks/Copy.antt =====
-- The end of delbookmark: the rest of the file is moved down over the line.
use gopherus.Base.{
  ℕ, suc, zero, ◌+◌, ◌≤◌, ◌<◌, ◌≡◌, refl, sym, ap, ap₂, ◌∙◌, false, [], ◌∷◌, ◌++◌, append-nil,
  append_assoc, arith, ◌==◌, if◌then◌else◌, length, take, drop, Bytes, Bool-cases, inl, inr,
  length-append, length-take, length-drop, take-append-drop, take-prefix, drop-prefix, drop-append,
  ==→eq,
}
use gopherus.Bookmarks.{lbuf_size, write_at, copy_down}

take-nil : (n : ℕ) (c : Bytes) → length (take (suc n) c) ≡ 0 → c ≡ []
take-nil n [] h = refl
take-nil n (x ∷ c) h = absurd (omega arith)

-- one chunk `k` over the first bytes of `b` and what follows
write_at-pieces :
    (a b k c : Bytes)
    → write_at (a ++ (b ++ (k ++ c))) (length a) k ≡ (a ++ k) ++ (drop (length k) (b ++ k) ++ c)
unfolding write_at
write_at-pieces a b k c =
    let fits : length k ≤ length (b ++ k) = omega (arith, length-append b k) in
    rw
      (
        take-prefix a (b ++ (k ++ c)),
        drop-prefix a (b ++ (k ++ c)) (length k),
        sym (append_assoc b k c),
        drop-append (length k) (b ++ k) c fits,
        append_assoc a k (drop (length k) (b ++ k) ++ c),
      )
      refl

==_ne_false : (n : ℕ) → (n == 0) ≡ false → 0 < n
==_ne_false n h = ground (arith, h)

copy_step :
    (fuel woff roff : ℕ) (file k : Bytes)
    → take lbuf_size (drop roff file) ≡ k
    → copy_down (suc fuel) woff roff file ≡ (
        if length k == 0
        then take woff file
        else copy_down fuel (woff + length k) (roff + length k) (write_at file woff k))
unfolding copy_down
copy_step fuel woff roff file k e = rw e refl

drop_prefix : (b c : Bytes) → drop (length b) (b ++ c) ≡ c
drop_prefix b c =
    let e : length b ≡ length b + 0 = omega arith in ap (λ n. drop n (b ++ c)) e ∙ drop-prefix b c 0

-- The file without the bytes between the two places, with fuel for more steps than bytes behind
-- them.
pub copy_down-pieces :
    (fuel : ℕ) (a b c : Bytes)
    → length c < fuel
    → copy_down fuel (length a) (length a + length b) (a ++ (b ++ c)) ≡ a ++ c
copy_down-pieces zero a b c h = absurd (omega arith)
copy_down-pieces (suc fuel) a b c h =
    let k = take lbuf_size c in
    let rest = drop lbuf_size c in
    let whole : k ++ rest ≡ c = take-append-drop lbuf_size c in
    let chunk : take lbuf_size (drop (length a + length b) (a ++ (b ++ c))) ≡ k =
      ap (take lbuf_size) (drop-prefix a (b ++ c) (length b) ∙ drop_prefix b c) in
    copy_step fuel (length a) (length a + length b) (a ++ (b ++ c)) k chunk
    ∙ elim (Bool-cases (length k == 0)) [
      | inl end ↦
          let none_left : c ≡ [] = take-nil 655 c (==→eq (length k) 0 end) in
          rw end (take-prefix a (b ++ c) ∙ sym (append-nil a) ∙ ap (a ++◌) (sym none_left))
      | inr more ↦
          let b' = drop (length k) (b ++ k) in
          let m : length (a ++ k) ≡ length a + length k = length-append a k in
          let l : length (a ++ k) + length b' ≡ length a + length b + length k =
            omega (arith, length-append a k, length-drop (length k) (b ++ k), length-append b k) in
          let less : length rest < fuel = omega (
            arith,
            length-drop lbuf_size c,
            length-take lbuf_size c,
            ==_ne_false (length k) more,
          ) in
          rw more (
            ap
              (λ f.
                copy_down fuel (length a + length k) (length a + length b + length k)
                  (write_at f (length a) k))
              (ap (λ x. a ++ (b ++ x)) (sym whole))
            ∙ ap (copy_down fuel (length a + length k) (length a + length b + length k))
                (write_at-pieces a b k rest)
            ∙ ap₂ (λ x y. copy_down fuel x y ((a ++ k) ++ (b' ++ rest))) (sym m) (sym l)
            ∙ copy_down-pieces fuel (a ++ k) b' rest less
            ∙ append_assoc a k rest
            ∙ ap (a ++◌) whole)
    ]
