-- ===== src/Discovery/Scores.antt =====
-- How probeTarget of internal/discovery/scanner.go ranks what it finds.
use new_era.Prelude.{ℕ, ◌*◌, ◌≤◌, ◌<◌, true, false, List, [], ◌∷◌, length, arith}
use new_era.Prelude.Text.{Text, to_lower}
use new_era.Discovery.{port_score, count_keywords, keyword_list, keyword_score, target_score}

port_score_bounds : (port : ℕ) → (10 ≤ port_score port) × (port_score port ≤ 55)
unfolding port_score
port_score_bounds port = (ground arith, ground arith)

count_keywords_bound :
    (text : Text) (keywords : List Text) → count_keywords text keywords ≤ 18 * length keywords
unfolding count_keywords
count_keywords_bound text [] = omega arith
count_keywords_bound text (keyword ∷ keywords) = ground (arith, count_keywords_bound text keywords)

keyword_score_bound : (banner : Text) → keyword_score banner ≤ 108
unfolding keyword_score
keyword_score_bound banner = omega (arith, count_keywords_bound (to_lower banner) keyword_list)

-- A target that answers a probe of the reader protocol has a higher score than each target that does
-- not, on any ports and with any banner.
verified_scores_higher :
    (port other : ℕ) (banner shown : Text)
    → target_score other false banner < target_score port true shown
unfolding target_score
verified_scores_higher port other banner shown =
    ground (arith, port_score_bounds port, port_score_bounds other, keyword_score_bound banner)
