-- ===== src/Protocol/Codecs.antt =====
-- When codec parameters survive the conversions.
use conference_go.Common.{ℕ, ◌%◌, ◌^◌, ◌<◌, List, [], ◌∷◌, ◌≡◌, refl, ◌↔◌, arith, ap}
use conference_go.Proto.{RtpCodecParameters, RtcpFeedback}
use conference_go.Protocol.{
  feedbacks_of, feedbacks_to, new_rtp_codec_parameters, rtp_codec_parameters_to_webrtc,
}

feedbacks_of-feedbacks_to : (fs : List RtcpFeedback) → feedbacks_of (feedbacks_to fs) ≡ fs
unfolding feedbacks_of feedbacks_to
feedbacks_of-feedbacks_to [] = refl
feedbacks_of-feedbacks_to (f ∷ fs) = ap (λ l. f ∷ l) (feedbacks_of-feedbacks_to fs)

-- The numbers of the parameters fit the types of the WebRTC library.
abbrev pub IsNarrow : RtpCodecParameters → Type 0
IsNarrow p = (p.channels < 2 ^ 16) × (p.payload_type < 2 ^ 8)

mod_16 : (n : ℕ) → n < 2 ^ 16 → n % 2 ^ 16 ≡ n
mod_16 n h = omega (arith, h)

mod_8 : (n : ℕ) → n < 2 ^ 8 → n % 2 ^ 8 ≡ n
mod_8 n h = omega (arith, h)

-- Parameters that are converted for the WebRTC library and back are the same exactly if the channels fit
-- 16 bits and the payload type 8 bits.
pub new_rtp_codec_parameters_iff :
    (p : RtpCodecParameters)
    → (new_rtp_codec_parameters (rtp_codec_parameters_to_webrtc p) ≡ p) ↔ IsNarrow p
unfolding new_rtp_codec_parameters rtp_codec_parameters_to_webrtc
new_rtp_codec_parameters_iff p = (
  λ e.
      let c = ap (λ (x : RtpCodecParameters). x.channels) e in
      let t = ap (λ (x : RtpCodecParameters). x.payload_type) e in
      (omega (arith, c), omega (arith, t)),
  λ (c, t). λ i. record p {
    channels = mod_16 p.channels c i;
    payload_type = mod_8 p.payload_type t i;
    rtcp_feedback = feedbacks_of-feedbacks_to p.rtcp_feedback i;
  },
)
