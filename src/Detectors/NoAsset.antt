-- ===== src/Detectors/NoAsset.antt =====
-- pkg/detectorplugins/noasset/noasset.go

use mathlib.Core.List.{reverse}
use arxsentinel.Common.{
  ℕ, ◌+◌, Bool, not, List, [], ◌∷◌, ◌++◌, map, ◌==◌, if◌then◌else◌, Text, codes, to_lower, mem,
}
use arxsentinel.Common.Int.{ℤ, pos, leb_ℤ}
use arxsentinel.Common.{show_nat}
use arxsentinel.Common.Doubles.{Doubles}
use arxsentinel.State.{IpState, recent_paths}
use arxsentinel.Scorer.{DetectResult, no_result, Detector}
use arxsentinel.Detectors.{Params}

abbrev pub default_asset_extensions : List Text
default_asset_extensions =
    codes ".css"
    ∷ codes ".js"
    ∷ codes ".png"
    ∷ codes ".jpg"
    ∷ codes ".jpeg"
    ∷ codes ".gif"
    ∷ codes ".svg"
    ∷ codes ".woff"
    ∷ codes ".woff2"
    ∷ codes ".ttf"
    ∷ codes ".ico"
    ∷ codes ".webp"
    ∷ []

-- path.Ext, on the reversed path: what stands behind the last dot of the last segment, with the
-- dot, or nothing.
unfoldable pub ext_of_reversed : Text → Text → Text
ext_of_reversed [] acc = []
ext_of_reversed (c ∷ s) acc =
    let more = ext_of_reversed s (c ∷ acc) in
    if c == b'/' then [] else if c == b'.' then c ∷ acc else more

unfoldable pub path_ext : Text → Text
unfolding ext_of_reversed
path_ext p = ext_of_reversed (reverse p) []

-- The path up to its first question mark.
unfoldable pub strip_query : Text → Text
strip_query [] = []
strip_query (c ∷ s) = let rest = c ∷ strip_query s in if c == b'?' then [] else rest

-- The set of extensions is the list of its keys.
unfoldable pub is_asset : (Text → Text) → List Text → Text → Bool
unfolding strip_query path_ext
is_asset other exts p = mem (to_lower other (path_ext (strip_query p))) exts

-- assetCount and pageCount of the loop
unfoldable pub count_assets : (Text → Bool) → List Text → ℕ × ℕ
count_assets asset [] = (0, 0)
count_assets asset (p ∷ ps) =
    let (assets, pages) = count_assets asset ps in
    if asset p then (assets + 1, pages) else (assets, pages + 1)

module _ (f : Doubles) where
  pub record NoAssetDetector : Type 0 where
    pub min_page_requests : ℤ
    pub asset_ratio_threshold : f.Double
    pub score : ℤ
    pub asset_exts : List Text

  unfoldable pub new_no_asset : (Text → Text) → Params f → NoAssetDetector
  new_no_asset other p = record {
    min_page_requests = p.get_int (codes "min_page_requests") (pos 3);
    asset_ratio_threshold =
        p.get_float (codes "asset_ratio_threshold") (f.div (f.of_int (pos 1)) (f.of_int (pos 10)));
    score = p.get_int (codes "score") (pos 20);
    asset_exts =
        map (to_lower other) (p.get_strings (codes "asset_extensions") default_asset_extensions);
  }

  unfoldable pub detect_no_asset :
      (Text → Text) → NoAssetDetector → IpState → DetectResult × IpState
  unfolding is_asset count_assets
  detect_no_asset other d s =
      let (paths, s') = recent_paths s in
      let (assets, pages) = count_assets (is_asset other d.asset_exts) paths in
      let ratio = f.div (f.of_int (pos assets)) (f.of_int (pos (pages + assets))) in
      if not (leb_ℤ d.min_page_requests (pos pages))
      then (no_result, s')
      else if f.le d.asset_ratio_threshold ratio
      then (no_result, s')
      else (
        record {
          score = d.score;
          module_name = codes "noasset";
          reason =
              codes "noasset:pages="
              ++ (show_nat pages
                  ++ (codes ",assets="
                      ++ (show_nat assets
                          ++ (codes ",ratio="
                              ++ (f.show_rounded (f.mul ratio (f.of_int (pos 100)))
                                  ++ codes "%")))));
        },
        s',
      )

  abbrev pub no_asset : (Text → Text) → NoAssetDetector → Detector
  no_asset other d = record {
    name = codes "noasset";
    detect = λ clock e s. detect_no_asset other d s;
  }
