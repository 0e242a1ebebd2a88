-- ===== src/Service/Export/Codec.antt =====
-- nvr_core/service/export.go: the arguments of ffmpeg, and nvr_core/utils/export.go: the formats.
-- `strings.ToLower` is a parameter; the filter of a watermark is an argument here.
use rm_vms.Base.{
  Bool, true, false, ◌&&◌, ◌||◌, Option, none, some, List, [], ◌∷◌, ◌++◌, if◌then◌else◌, String,
}
use rm_vms.Base.Assoc.{lookup, String_eq}

-- The formats with their types.
unfoldable pub supported_export_formats : List (String × String)
supported_export_formats =
    ("mp4", "video/mp4")
    ∷ ("mkv", "video/x-matroska")
    ∷ ("avi", "video/x-msvideo")
    ∷ ("mov", "video/quicktime")
    ∷ ("webm", "video/webm")
    ∷ []

unfoldable pub get_video_mime_type : String → String
get_video_mime_type ext = elim (lookup ext supported_export_formats) [
  | none ↦ "application/octet-stream"
  | some mime_type ↦ mime_type
]

-- Whether there is no error.
unfoldable pub validate_export_format : (String → String) → String → Bool
validate_export_format to_lower format = elim (lookup (to_lower format) supported_export_formats) [
  | none ↦ false
  | some mime_type ↦ true
]

abbrev pub eq_str : String → String → Bool
eq_str a b = String_eq.beq a b

unfoldable pub is_g711 : String → Bool
is_g711 codec =
    eq_str codec "pcm_alaw"
    || eq_str codec "pcm_mulaw"
    || eq_str codec "alaw"
    || eq_str codec "mulaw"

-- `format == "mp4" || format == "mov"`
unfoldable pub is_iso : String → Bool
is_iso format = eq_str format "mp4" || eq_str format "mov"

unfoldable pub x264 : List String
x264 = "-c:v" ∷ "libx264" ∷ "-preset" ∷ "superfast" ∷ "-crf" ∷ "23" ∷ []

unfoldable pub aac : List String
aac = "-c:a" ∷ "aac" ∷ "-b:a" ∷ "128k" ∷ []

unfoldable pub faststart : String → List String
faststart format = if is_iso format then "-movflags" ∷ "+faststart" ∷ [] else []

unfoldable pub get_codec_strategy : String → String → List String
get_codec_strategy format audio_codec =
    if eq_str format "avi"
    then x264 ++ (if eq_str audio_codec "" then [] else "-c:a" ∷ "aac" ∷ [])
    else ((if is_iso format && is_g711 audio_codec
          then ("-c:v" ∷ "copy" ∷ aac)
          else "-c" ∷ "copy" ∷ [])
        ++ faststart format)

-- The codecs with a watermark.
unfoldable pub watermark_codecs : String → String → List String
watermark_codecs format audio_codec =
    x264
    ++ (if eq_str audio_codec ""
        then []
        else if is_iso format && is_g711 audio_codec
        then aac
        else "-c:a" ∷ "copy" ∷ [])
    ++ faststart format

unfoldable pub base_args : String → List String
base_args concat_file_path =
    "-y" ∷ "-nostdin" ∷ "-f" ∷ "concat" ∷ "-safe" ∷ "0" ∷ "-i" ∷ concat_file_path ∷ []

-- The filter, and the path of the image if there is one.
unfoldable pub filter_args : Option String → String → List String
filter_args none filter = "-vf" ∷ filter ∷ []
filter_args (some image_path) filter =
    "-i" ∷ image_path ∷ "-filter_complex" ∷ filter ∷ "-map" ∷ "[out]" ∷ "-map" ∷ "0:a?" ∷ []

-- A watermark as the path of its image and its filter.
unfoldable pub ffmpeg_args :
    String → String → String → String → Option (Option String × String) → List String
ffmpeg_args concat_file_path output_path format audio_codec none =
    base_args concat_file_path ++ get_codec_strategy format audio_codec ++ (output_path ∷ [])
ffmpeg_args concat_file_path output_path format audio_codec (some (image, filter)) =
    base_args concat_file_path
    ++ filter_args image filter
    ++ watermark_codecs format audio_codec
    ++ (output_path ∷ [])
