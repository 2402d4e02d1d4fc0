-- ===== src/Files/Back.antt =====
-- Going through the folders: `goPath`, `handleBack` and the links above the list of
-- console/src/pages/FileFolder/index.tsx.
use nfx_edge.Common.{
  ℕ, zero, suc, ◌+◌, ◌-◌, ◌≤◌, ◌<◌, ◌≡◌, refl, sym, ap, ◌∙◌, subst, Text, codes, true, Option, none,
  some, List, [], ◌∷◌, ◌++◌, arith, All, All-filter, All-take, All-filter_of_All, filter, length,
  take, truthy, split,
}
use nfx_edge.Common.Split.{HasNo, split-join, split-HasNo}
use nfx_edge.Files.{
  but_last, segments, current_path, slashed, file_folder, go_path, handle_back, crumb,
}

IsSegment : Text → Type 0
IsSegment t = (truthy t ≡ true) × HasNo b'/' t

both {ℓ} :
    {A : Type ℓ} (P Q : A → Type 0) (xs : List A) → All P xs → All Q xs → All (λ x. P x × Q x) xs
both P Q [] h k = tt
both P Q (x ∷ xs) h k = ((h.0, k.0), both P Q xs h.1 k.1)

All-segments : (path : Text) → All IsSegment (segments path)
unfolding segments IsSegment
All-segments path =
    both (λ t. truthy t ≡ true) (HasNo b'/') (filter truthy (split path b'/'))
      (All-filter truthy (split path b'/'))
      (All-filter_of_All (HasNo b'/') truthy (split path b'/') (split-HasNo b'/' path))

kept_segments : (ts : List Text) → All IsSegment ts → filter truthy ts ≡ ts
unfolding IsSegment
kept_segments [] h = refl
kept_segments (t ∷ ts) h = rw (h.0.0, kept_segments ts h.1)

lacking : (ts : List Text) → All IsSegment ts → All (HasNo b'/') ts
lacking [] h = tt
lacking (t ∷ ts) h = (unfold IsSegment in h.0.1, lacking ts h.1)

segments-slashed : (ts : List Text) → All IsSegment ts → segments (slashed ts) ≡ ts
unfolding segments
segments-slashed [] h = unfold split in refl
segments-slashed (t ∷ ts) h =
    let no = lacking (t ∷ ts) h in
    ap (filter truthy) (split-join b'/' t ts no.0 no.1) ∙ kept_segments (t ∷ ts) h

but_last-take : (ts : List Text) → but_last ts ≡ take (length ts - 1) ts
but_last-take [] = refl
but_last-take (t ∷ []) = refl
but_last-take (t ∷ u ∷ ts) =
    ap (λ rest. t ∷ rest) (but_last-take (u ∷ ts))
    ∙ ap (λ n. take n (t ∷ u ∷ ts)) (one_more (length ts))
  where
    one_more : (n : ℕ) → suc (suc n - 1) ≡ suc (suc n) - 1
    one_more n = omega arith

take-take : (m n : ℕ) (ts : List Text) → m ≤ n → take m (take n ts) ≡ take m ts
take-take zero n ts h = refl
take-take (suc m) zero ts h = absurd (omega arith)
take-take (suc m) (suc n) [] h = refl
take-take (suc m) (suc n) (t ∷ ts) h = ap (λ rest. t ∷ rest) (take-take m n ts (omega arith))

unfoldable pub go_on : (Text → Option Text) → Option Text → Option Text
go_on next none = none
go_on next (some url) = next url

module _ (encode : Text → Text) (read_path shown : Text → Text) where
  -- The path of the folder that a URL shows.
  unfoldable pub page_path : Text → Text
  page_path url = shown (read_path url)

  -- The URL after going back so many times; `none` once the page is left.
  unfoldable pub back_times : ℕ → Text → Option Text
  back_times zero url = some url
  back_times (suc n) url = go_on (back_times n) (handle_back encode (some (page_path url)))

  module _ (reads_root : read_path (file_folder ++ []) ≡ [])
      (reads : (path : Text) → read_path (file_folder ++ (codes "?path=" ++ encode path)) ≡ path)
      (echoes : (path : Text) → segments (shown path) ≡ segments path) where
    read_path-go_path : (path : Text) → read_path (go_path encode path) ≡ path
    unfolding go_path
    read_path-go_path [] = reads_root
    read_path-go_path (c ∷ path) = reads (c ∷ path)

    opened :
        (ts : List Text)
        → All IsSegment ts
        → segments (page_path (go_path encode (slashed ts))) ≡ ts
    unfolding page_path
    opened ts h =
        echoes (read_path (go_path encode (slashed ts)))
        ∙ ap segments (read_path-go_path (slashed ts))
        ∙ segments-slashed ts h

    -- Every link above the list of a folder goes to the folder of its first segments.
    crumb_lem :
        (path : Text) (i : ℕ)
        → segments (page_path (crumb encode (segments path) i)) ≡ take (i + 1) (segments path)
    unfolding crumb
    crumb_lem path i =
        opened (take (i + 1) (segments path))
          (All-take IsSegment (i + 1) (segments path) (All-segments path))

    stays : (path : Text) → length (segments path) ≡ 0 → handle_back encode (some path) ≡ none
    unfolding handle_back current_path
    stays path e = ground (arith, e)

    leads :
        (path : Text)
        → 0 < length (segments path)
        → handle_back encode (some path)
          ≡ some (go_path encode (slashed (but_last (segments path))))
    unfolding handle_back current_path
    leads path h = ground (arith, h)

    length-but_last : (ts : List Text) → length (but_last ts) ≡ length ts - 1
    length-but_last [] = omega arith
    length-but_last (t ∷ []) = omega arith
    length-but_last (t ∷ u ∷ ts) = omega (arith, length-but_last (u ∷ ts))

    opened_before :
        (url : Text)
        → segments (page_path (go_path encode (slashed (but_last (segments (page_path url))))))
          ≡ but_last (segments (page_path url))
    opened_before url = opened (but_last (segments (page_path url))) (
        subst (All IsSegment) (sym (but_last-take (segments (page_path url))))
          (All-take IsSegment _ (segments (page_path url)) (All-segments (page_path url))))

    back_step :
        (n : ℕ) (url : Text)
        → 0 < length (segments (page_path url))
        → back_times (suc n) url
          ≡ back_times n (go_path encode (slashed (but_last (segments (page_path url)))))
    unfolding back_times go_on
    back_step n url h = ap (go_on (back_times n)) (leads (page_path url) h)

    arrives :
        (n : ℕ) (url : Text)
        → n ≤ length (segments (page_path url))
        → (u : Text) × (back_times n url ≡ some u)
          × (segments (page_path u)
              ≡ take (length (segments (page_path url)) - n) (segments (page_path url)))
    arrives zero url h =
        (url, unfold back_times in refl, sym (take_whole (segments (page_path url))))
      where
        take_whole : (ts : List Text) → take (length ts - 0) ts ≡ ts
        take_whole ts = ap (λ n. take n ts) (omega arith) ∙ take_length ts
          where
            take_length : (ts : List Text) → take (length ts) ts ≡ ts
            take_length [] = refl
            take_length (t ∷ ts) = ap (λ rest. t ∷ rest) (take_length ts)
    arrives (suc n) url h =
        let ts = segments (page_path url) in
        let up = go_path encode (slashed (but_last ts)) in
        let shorter : length (segments (page_path up)) ≡ length ts - 1 =
          ap length (opened_before url) ∙ length-but_last ts in
        let (u, there, left) = arrives n up (omega (arith, shorter, h)) in
        (
          u,
          back_step n url (omega (arith, h)) ∙ there,
          left
              ∙ ap (λ k. take (k - n) (segments (page_path up))) shorter
              ∙ ap (take (length ts - 1 - n)) (opened_before url ∙ but_last-take ts)
              ∙ take-take (length ts - 1 - n) (length ts - 1) ts (omega arith)
              ∙ ap (λ k. take k ts) (omega arith),
        )

    leaves :
        (n : ℕ) (url : Text) → length (segments (page_path url)) ≡ n → back_times (suc n) url ≡ none
    leaves zero url e =
        unfold back_times go_on in ap (go_on (back_times 0)) (stays (page_path url) e)
    leaves (suc n) url e =
        back_step (suc n) url (omega (arith, e))
        ∙ leaves n (go_path encode (slashed (but_last (segments (page_path url))))) (
            ap length (opened_before url)
            ∙ length-but_last (segments (page_path url))
            ∙ omega (arith, e))

    -- If the router reads a path back as it was encoded, and the server answers with the folder that
    -- it was asked for, going back some times shows the folder of the first segments, that many
    -- fewer; and going back once more than there are segments leaves the page.
    pub handle_back_lem :
        (url : Text)
        → ((n : ℕ)
            → n ≤ length (segments (page_path url))
            → (u : Text) × (back_times n url ≡ some u)
              × (segments (page_path u)
                  ≡ take (length (segments (page_path url)) - n) (segments (page_path url))))
          × (back_times (suc (length (segments (page_path url)))) url ≡ none)
    handle_back_lem url = (λ n. arrives n url, leaves _ url refl)
