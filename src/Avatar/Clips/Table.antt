-- ===== src/Avatar/Clips/Table.antt =====
-- hydralisk/avatar/clips.py: the catalogue of the footage.
use hydralisk.Prelude.{ℕ, String, Option, List, [], ◌∷◌, get_elem?}

pub data ClipRole : Type 0 where
  idle listening speaking flair : ClipRole

-- `mean_db` is negative for every clip: the field is its size in tenths of a decibel.
pub record ClipSpec : Type 0 where
  pub index : ℕ
  pub filename : String
  pub role : ClipRole
  pub note : String
  pub mean_db : ℕ

abbrev pub clip_catalog : List ClipSpec
clip_catalog =
    record {
      index = 0;
      filename = "v2_1783572761179-360477728.mp4";
      role = ClipRole.speaking;
      note = "Neutral/engaged framing; ends neutral. Talking candidate.";
      mean_db = 186;
    }
    ∷ record {
      index = 1;
      filename = "v2_traced-11963824-fda9-4485-ab77-e7b9f8c68566.mp4";
      role = ClipRole.speaking;
      note = "Neutral start; ends mid-speech with mouth open.";
      mean_db = 250;
    }
    ∷ record {
      index = 2;
      filename = "v2_traced-17fc6c67-b5d3-4ad8-a99f-bf74ee5b7195.mp4";
      role = ClipRole.speaking;
      note = "Neutral start; ends speaking with mouth open.";
      mean_db = 217;
    }
    ∷ record {
      index = 3;
      filename = "v2_traced-47fc42d3-158b-40e1-8da0-ca8e7fddc09f.mp4";
      role = ClipRole.idle;
      note = "Neutral/basic framing; ends neutral. Good filler/idle candidate.";
      mean_db = 213;
    }
    ∷ record {
      index = 4;
      filename = "v2_traced-4c7b99f9-ed57-41b1-85f2-5cecf550b1e7.mp4";
      role = ClipRole.listening;
      note = "Ends with a large smile. More animated/listening-like.";
      mean_db = 232;
    }
    ∷ record {
      index = 5;
      filename = "v2_traced-6d38289c-5a5d-4c73-8e8f-cdefbce77a36.mp4";
      role = ClipRole.listening;
      note = "Ends with subtle smile. Good transition clip.";
      mean_db = 198;
    }
    ∷ record {
      index = 6;
      filename = "v2_traced-947babe3-9108-420b-b7f4-18463ac20443.mp4";
      role = ClipRole.idle;
      note = "Neutral/basic framing; ends neutral. Best quiet idle candidate.";
      mean_db = 469;
    }
    ∷ record {
      index = 7;
      filename = "v2_traced-df47de0a-9102-4fee-a094-d9cc5e49d994.mp4";
      role = ClipRole.flair;
      note = "Strong hologram/UI overlay; intro/outro flair only.";
      mean_db = 220;
    }
    ∷ record {
      index = 8;
      filename = "v2_traced-df7d3b47-8156-4a45-aa68-d92cbf9401f3.mp4";
      role = ClipRole.speaking;
      note = "Neutral/basic framing; loudest clip. Best talking candidate.";
      mean_db = 111;
    }
    ∷ record {
      index = 9;
      filename = "v2_traced-f276a1fc-3009-4257-bf88-8f2874bd984e.mp4";
      role = ClipRole.flair;
      note = "Circular UI/ring framing; less disruptive flair.";
      mean_db = 236;
    }
    ∷ []

-- `CLIP_CATALOG[index]`, with `none` for an `IndexError`.
unfoldable pub clip_by_index : ℕ → Option ClipSpec
clip_by_index index = get_elem? clip_catalog index
