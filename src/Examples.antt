-- ===== src/Examples.antt =====
-- Runs of the model, with whole numbers for `float`s: the data that the children share.
mod Server
mod Worker
mod Text
mod Start
mod Stream
mod Repeat
mod Texts
mod Overlap
mod Hours
mod Handover
mod Early
mod Topics
mod Setup
mod Client
use ftrl_online_pslite.Prelude.{
  false, ℕ, ◌%◌, ◌^◌, ◌+◌, ◌*◌, ◌-◌, ◌≡◌, refl, List, [], ◌∷◌, ◌++◌, some, if◌then◌else◌,
}
use ftrl_online_pslite.Prelude.Int.{ℤ, pos, negsuc}
use ftrl_online_pslite.Floats.{whole}
use ftrl_online_pslite.Bytes.{Bytes, codes, eq_bytes}
use ftrl_online_pslite.Clock.{Strftime, Tm, IsStandard, two_digits}
use ftrl_online_pslite.StringUtil.{Parsers}
use ftrl_online_pslite.RecordLog
use ftrl_online_pslite.Ftrl.{Ftrl, Request}
use ftrl_online_pslite.Sample.{Sample, put_all}
use ftrl_online_pslite.Learner.{Learner}
use ftrl_online_pslite.Learner.Labels.{Kind}
use ftrl_online_pslite.Parser.{Parser, Env}

-- A `strftime` on the two formats that the program passes.
abbrev pub clock : Strftime
clock fmt t = if eq_bytes fmt (codes "%H:$M") then two_digits t.tm_hour ++ codes ":$M" else fmt

pub clock-IsStandard : IsStandard clock
clock-IsStandard = record { hour_dollar = λ t. refl; dollar = λ t. refl }

abbrev pub midnight : Tm
midnight = record { tm_hour = 0; tm_min = 0 }

abbrev pub digits : ℕ → Bytes → ℕ
digits n [] = n
digits n (c ∷ s) = digits (n * 10 + (c - b'0')) s

abbrev pub whole_parsers : Parsers ℤ
whole_parsers = record {
  atoi = λ s. pos (digits 0 s % 2 ^ 31);
  atof = λ s. pos (digits 0 s);
  boost_trim = λ s. s;
  cast_float = λ s. some (pos (digits 0 s));
  cast_uint64 = λ s. some (digits 0 s);
}

abbrev pub env : Env ℤ
env = record {
  parsers = whole_parsers;
  crc64_table = λ i j. i + j;
  strftime = clock;
  localtime = λ t. midnight;
  time = pos 0;
}

abbrev pub server : Ftrl ℤ
server = record {
  alpha = pos 1;
  beta = pos 1;
  lamda1 = pos 0;
  lamda2 = pos 0;
  set_flag = false;
  w = [];
  z = [];
  n = [];
  acc = [];
}

abbrev pub three_keys : List ℕ
three_keys = 0 ∷ 4 ∷ 9 ∷ []

abbrev pub three_vals : List ℤ
three_vals = pos 3 ∷ negsuc 1 ∷ pos 5 ∷ []

abbrev pub empty_log : RecordLog.RecordLog ℤ
empty_log = record {
  stat = λ i. pos 0;
  cnt = λ i. 0;
  pre_min = negsuc 0;
  neghour = λ i. 0;
  poshour = λ i. 0;
}

abbrev pub sample_a : Sample ℤ
sample_a = record { features = 4 ∷ 9 ∷ []; label = pos 1; ctr = pos 1; pctr = pos 0 }

abbrev pub sample_b : Sample ℤ
sample_b = record { features = 9 ∷ []; label = pos 0; ctr = pos 1; pctr = pos 0 }

abbrev pub two_samples : List (Sample ℤ)
two_samples = sample_a ∷ sample_b ∷ []

abbrev pub worker : Learner ℤ
worker = record {
  appid = 1;
  num_sample = 2;
  samples = put_all 0 two_samples (λ i. sample_b);
  w = [];
  p = [];
  recordlog = empty_log;
}

-- A parser of which 99 impressions wait.
abbrev pub parser : Parser ℤ
parser = record {
  cntl_0 = 99;
  cntl_1 = 0;
  recordlog = empty_log;
  lw = Kind.ig ∷ Kind.iv_cpe ∷ [];
  idx_0 = 99;
  idx_1 = 0;
  sample_0 = λ i. sample_a;
  sample_1 = λ i. sample_b;
  ys_imp = λ i j. pos 0;
  ys_bhv = λ i j. pos 1;
  markid_hashmap = [];
  markid_hashmap0 = [];
}
